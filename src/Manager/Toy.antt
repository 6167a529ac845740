-- ===== src/Manager/Toy.antt =====
-- Streams that can be run: functions from their numbers. They show that the laws can hold.
use century_ring.Common.{
  ℕ, suc, ◌≡◌, ◌≢◌, refl, Bool, true, false, ◌||◌, List, [], ◌∷◌, ◌++◌, ltb, ◌==◌, if◌then◌else◌,
  arith,
}
use century_ring.Ring.State.{CompletionEvent}
use century_ring.Manager.Anyio.{Sending, sent, would_block, Streams, StreamLaws}

pub record ToyStreams : Type 0 where
  pub made : ℕ
  pub awaited : ℕ → Bool
  pub given : ℕ → List CompletionEvent

abbrev pub toy_send : ℕ → CompletionEvent → ToyStreams → Sending × ToyStreams
toy_send k e s =
    if s.awaited k
    then (
      sent,
      record {
        made = s.made;
        awaited = λ j. if j == k then false else s.awaited j;
        given = λ j. if j == k then s.given j ++ e ∷ [] else s.given j;
      },
    )
    else (would_block, s)

abbrev set_awaited : Bool → ℕ → ToyStreams → ToyStreams
set_awaited b k s = record s { awaited = λ j. if j == k then b else s.awaited j }

instance abbrev pub toy_streams : Streams ToyStreams
toy_streams = record {
  create = λ s.
      (s.made, record s { made = suc s.made; given = λ j. if j == s.made then [] else s.given j });
  send_nowait = toy_send;
  close = λ k s. s;
  receive = set_awaited true;
  close_receive = set_awaited false;
}

pub toy_send-sent :
    (k : ℕ) (e : CompletionEvent) (s : ToyStreams)
    → s.awaited k ≡ true
    → ((toy_send k e s).0 ≡ sent) × ((toy_send k e s).1.given k ≡ s.given k ++ e ∷ [])
toy_send-sent k e s h = ground arith

pub toy_send-other :
    (j k : ℕ) (e : CompletionEvent) (s : ToyStreams)
    → j ≢ k
    → ((toy_send k e s).1.given j ≡ s.given j) × ((toy_send k e s).1.awaited j ≡ s.awaited j)
toy_send-other j k e s h = ground arith

toy_send-made : (k : ℕ) (e : CompletionEvent) (s : ToyStreams) → (toy_send k e s).1.made ≡ s.made
toy_send-made k e s = ground arith

abbrev pub toy_known : ToyStreams → ℕ → Bool
toy_known s k = ltb k s.made

pub toy_create-fresh : (n : ℕ) → ltb n n ≡ false
toy_create-fresh n = ground arith

pub toy_create-known : (n k : ℕ) → ltb k (suc n) ≡ (k == n || ltb k n)
toy_create-known n k = ground arith

pub toy_send-known :
    (j k : ℕ) (e : CompletionEvent) (s : ToyStreams)
    → toy_known (toy_send k e s).1 j ≡ toy_known s j
toy_send-known j k e s = rw (toy_send-made k e s) refl

pub toy_create-given :
    (s : ToyStreams) (k : ℕ)
    → (toy_streams.create s).1.given k ≡ (if k == s.made then [] else s.given k)
toy_create-given s k = ground arith

pub toy_send-given :
    (k : ℕ) (e : CompletionEvent) (s : ToyStreams)
    → (toy_send k e s).0 ≡ sent
    → (toy_send k e s).1.given k ≡ s.given k ++ e ∷ []
toy_send-given k e s h = ground (arith, h)

pub toy_send-refused :
    (k : ℕ) (e : CompletionEvent) (s : ToyStreams)
    → (toy_send k e s).0 ≢ sent
    → (toy_send k e s).1.given k ≡ s.given k
toy_send-refused k e s h = ground (arith, h)

abbrev pub toy_stream_laws : StreamLaws ToyStreams
toy_stream_laws = record {
  known = toy_known;
  receiving = λ s k. s.awaited k;
  delivered = λ s k. s.given k;
  create_fresh = λ s. toy_create-fresh s.made;
  create_known = λ s k. toy_create-known s.made k;
  send_sent = λ k e s h. (toy_send-sent k e s h).0;
  create_delivered = λ s k. toy_create-given s k;
  send_delivered = toy_send-given;
  send_refused = toy_send-refused;
  send_delivered_ne = λ j k e s h. (toy_send-other j k e s h).0;
  send_receiving_ne = λ j k e s h. (toy_send-other j k e s h).1;
  send_known = toy_send-known;
  close_delivered = λ j k s. refl;
  close_receiving_ne = λ j k s h. refl;
  close_known = λ j k s. refl;
  receive_known = λ j k s. refl;
  receive_delivered = λ j k s. refl;
  close_receive_delivered = λ j k s. refl;
  close_receive_known = λ j k s. refl;
}
