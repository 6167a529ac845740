-- ===== src/Manager/Anyio.antt =====
-- anyio's memory object streams without a buffer, and what the manager relies on in them.
use century_ring.Common.{
  ℕ, ◌≡◌, ◌≢◌, Bool, true, false, ◌||◌, List, [], ◌∷◌, ◌++◌, ◌==◌, if◌then◌else◌,
}
use century_ring.Ring.State.{CompletionEvent}

-- how `send_nowait` ends
pub data Sending : Type 0 where
  sent would_block broken_resource : Sending

-- `S` is all streams; a stream is named by a number.
pub record Streams (S : Type 0) : Type 0 where
  pub create : S → ℕ × S
  pub send_nowait : ℕ → CompletionEvent → S → Sending × S
  -- of the sending end
  pub close : ℕ → S → S
  -- a task awaits `receive()`
  pub receive : ℕ → S → S
  -- the receiving end is closed, when its task has its event or is cancelled
  pub close_receive : ℕ → S → S

-- `receiving` says whether a task awaits the stream, and `delivered` what its receiver has been
-- given. Without a buffer, `send_nowait` succeeds if a task is waiting; if it succeeds it has handed
-- the event over, and otherwise it has not.
pub record StreamLaws (S : Type 0) ⦃st : Streams S⦄ : Type 0 where
  pub known : S → ℕ → Bool
  pub receiving : S → ℕ → Bool
  pub delivered : S → ℕ → List CompletionEvent
  pub create_fresh : (s : S) → known s (st.create s).0 ≡ false
  pub create_known : (s : S) (k : ℕ) → known (st.create s).1 k ≡ (k == (st.create s).0 || known s k)
  pub send_sent :
      (k : ℕ) (e : CompletionEvent) (s : S) → receiving s k ≡ true → (st.send_nowait k e s).0 ≡ sent
  pub create_delivered :
      (s : S) (k : ℕ)
      → delivered (st.create s).1 k ≡ (if k == (st.create s).0 then [] else delivered s k)
  pub send_delivered :
      (k : ℕ) (e : CompletionEvent) (s : S)
      → (st.send_nowait k e s).0 ≡ sent
      → delivered (st.send_nowait k e s).1 k ≡ delivered s k ++ e ∷ []
  pub send_refused :
      (k : ℕ) (e : CompletionEvent) (s : S)
      → (st.send_nowait k e s).0 ≢ sent
      → delivered (st.send_nowait k e s).1 k ≡ delivered s k
  pub send_delivered_ne :
      (j k : ℕ) (e : CompletionEvent) (s : S)
      → j ≢ k
      → delivered (st.send_nowait k e s).1 j ≡ delivered s j
  pub send_receiving_ne :
      (j k : ℕ) (e : CompletionEvent) (s : S)
      → j ≢ k
      → receiving (st.send_nowait k e s).1 j ≡ receiving s j
  pub send_known :
      (j k : ℕ) (e : CompletionEvent) (s : S) → known (st.send_nowait k e s).1 j ≡ known s j
  pub close_delivered : (j k : ℕ) (s : S) → delivered (st.close k s) j ≡ delivered s j
  pub close_receiving_ne : (j k : ℕ) (s : S) → j ≢ k → receiving (st.close k s) j ≡ receiving s j
  pub close_known : (j k : ℕ) (s : S) → known (st.close k s) j ≡ known s j
  pub receive_known : (j k : ℕ) (s : S) → known (st.receive k s) j ≡ known s j
  pub receive_delivered : (j k : ℕ) (s : S) → delivered (st.receive k s) j ≡ delivered s j
  pub close_receive_delivered :
      (j k : ℕ) (s : S) → delivered (st.close_receive k s) j ≡ delivered s j
  pub close_receive_known : (j k : ℕ) (s : S) → known (st.close_receive k s) j ≡ known s j
