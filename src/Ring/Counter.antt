-- ===== src/Ring/Counter.antt =====
-- `get_next_user_data` of src/ring.rs: the numbers that it hands out.
use century_ring.Common.{
  ℕ, zero, suc, ◌+◌, ◌%◌, ◌^◌, ◌≤◌, ◌<◌, ◌≡◌, ◌≢◌, refl, ap, ◌∙◌, some, List, [], ◌∷◌, get_elem?,
  arith,
}
use century_ring.Common.Int.{u64_mod}
use century_ring.Common.Exec.{ok, Exec, ◌>>=◌, pure}
use century_ring.Ring.State.{Process, get_next_user_data}

module _ {R : Type 0} where
  -- the results of that many calls in a row
  abbrev pub issue : ℕ → Exec (Process R) (List ℕ)
  issue zero = pure []
  issue (suc n) = do u ← get_next_user_data; rest ← issue n; pure (u ∷ rest)

  advanced : Process R → Process R
  advanced s = (get_next_user_data s).1

  issue-suc :
      (n : ℕ) (s : Process R) {rest : List ℕ}
      → (issue n (advanced s)).0 ≡ ok rest
      → (issue (suc n) s).0 ≡ ok (s.user_data_counter ∷ rest)
  unfolding advanced get_next_user_data ◌>>=◌
  issue-suc n s h = rw h refl

  advanced-small : (s : Process R) → (advanced s).user_data_counter < 2 ^ 64
  unfolding advanced get_next_user_data
  advanced-small s = omega arith

  places :
      (n : ℕ) (s : Process R) (rest : List ℕ)
      → s.user_data_counter < 2 ^ 64
      → ((i : ℕ) → i < n → get_elem? rest i ≡ some (((advanced s).user_data_counter + i) % u64_mod))
      → (i : ℕ) → i < suc n
      → get_elem? (s.user_data_counter ∷ rest) i ≡ some ((s.user_data_counter + i) % u64_mod)
  unfolding advanced get_next_user_data
  places n s rest small nth zero h = ap some (omega arith)
  places n s rest small nth (suc i) h = nth i (omega arith) ∙ ap some (omega arith)

  -- the number at each place
  issue-nth :
      (n : ℕ) (s : Process R)
      → s.user_data_counter < 2 ^ 64
      → (numbers : List ℕ) × ((issue n s).0 ≡ ok numbers)
        × ((i : ℕ) → i < n → get_elem? numbers i ≡ some ((s.user_data_counter + i) % u64_mod))
  unfolding ◌>>=◌
  issue-nth zero s small = ([], refl, λ i h. absurd (omega arith))
  issue-nth (suc n) s small =
      let (rest, given, nth) = issue-nth n (advanced s) (advanced-small s) in
      (s.user_data_counter ∷ rest, issue-suc n s given, places n s rest small nth)

  -- Up to 2^64 calls in a row, from any value of the counter, a u64, all succeed, and give different
  -- numbers at different places.
  pub user_data_distinct :
      (n i j : ℕ) (s : Process R)
      → s.user_data_counter < 2 ^ 64
      → n ≤ 2 ^ 64
      → i < j
      → j < n
      → (numbers : List ℕ) × ((issue n s).0 ≡ ok numbers)
        × (get_elem? numbers i ≢ get_elem? numbers j)
  user_data_distinct n i j s small few before inside =
      let (numbers, given, nth) = issue-nth n s small in
      (numbers, given, λ same. absurd (ground (arith, nth i (omega arith), nth j inside)))
