-- ===== src/Prep/FlagBits.antt =====
-- What `make_uring_flags` of src/flags.rs builds, read back as the preparing functions read it.
use century_ring.Common.{
  ap, arith, if◌then◌else◌, ◌==◌, ◌&&◌, Bool-cases, inl, inr, sym, ℕ, ◌^◌, ◌<◌, ◌≡◌, ◌∙◌, Bool,
  true, false,
}
use century_ring.Platform.{
  SqeFlag, fixed_file, io_drain, io_link, io_hardlink, async, buffer_select, skip_success, Crates,
}
use century_ring.Platform.Laws.{CrateLaws}
use century_ring.Prep.Flags.{add_if, chosen_flags, make_uring_flags}

-- the argument of `make_uring_flags` that stands for a flag
abbrev pub chosen : SqeFlag → Bool → Bool → Bool → Bool → Bool → Bool → Bool → Bool
chosen fixed_file fixed drain link hardlink force_async select skip = fixed
chosen io_drain fixed drain link hardlink force_async select skip = drain
chosen io_link fixed drain link hardlink force_async select skip = link
chosen io_hardlink fixed drain link hardlink force_async select skip = hardlink
chosen async fixed drain link hardlink force_async select skip = force_async
chosen buffer_select fixed drain link hardlink force_async select skip = select
chosen skip_success fixed drain link hardlink force_async select skip = skip

abbrev place : SqeFlag → ℕ
place fixed_file = 0
place io_drain = 1
place io_link = 2
place io_hardlink = 3
place async = 4
place buffer_select = 5
place skip_success = 6

place-injective : (f g : SqeFlag) → place f ≡ place g → f ≡ g
place-injective f g h = ground arith

module _ ⦃c : Crates⦄ (laws : CrateLaws) where
  contains-add_if :
      (chosen : Bool) (f g : SqeFlag) (x : ℕ)
      → c.contains (add_if chosen f x) (c.flag g)
        ≡ (if place f == place g && chosen then true else c.contains x (c.flag g))
  contains-add_if false f g x = ground arith
  contains-add_if true f g x = elim (Bool-cases (place f == place g)) [
    | inl same ↦
        let it : f ≡ g = place-injective f g (ground arith) in
        rw same
          (ap (λ h. c.contains (add_if true f x) (c.flag h)) (sym it) ∙ laws.union_contains x f)
    | inr other ↦ rw other (laws.union_keeps x f g (λ it. absurd (ground (arith, ap place it))))
  ]

  -- the flags one after the other, the last one first
  chosen_flags-contains :
      (f : SqeFlag) (fixed drain link hardlink force_async select skip : Bool)
      → c.contains (chosen_flags fixed drain link hardlink force_async select skip) (c.flag f)
        ≡ chosen f fixed drain link hardlink force_async select skip
  unfolding chosen_flags
  chosen_flags-contains f fixed drain link hardlink force_async select skip =
      simp (contains-add_if, laws.none_contains) (ground arith)

  -- Reading the bits back, as every preparing function does, finds exactly the flags whose argument
  -- was true, and the bits fit the u8 that the functions take.
  pub make_uring_flags_read_back :
      (f : SqeFlag) (fixed drain link hardlink force_async select skip : Bool)
      → let bits = make_uring_flags fixed drain link hardlink force_async select skip in
        (c.contains (c.from_bits_truncate bits) (c.flag f)
          ≡ chosen f fixed drain link hardlink force_async select skip)
        × (bits < 2 ^ 8)
  unfolding make_uring_flags
  make_uring_flags_read_back f fixed drain link hardlink force_async select skip =
      let set = chosen_flags fixed drain link hardlink force_async select skip in
      (
        laws.bits_known set f
            ∙ chosen_flags-contains f fixed drain link hardlink force_async select skip,
        laws.bits_small set,
      )
