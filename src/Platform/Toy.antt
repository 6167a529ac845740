-- ===== src/Platform/Toy.antt =====
-- A platform that can be run: a queue of two entries, whose operations complete when they are
-- submitted, and flags that are sums of powers of two. It shows that the laws can hold.
use century_ring.Common.{
  ℕ, ◌+◌, ◌-◌, ◌/◌, ◌%◌, ◌^◌, ◌≤◌, ◌<◌, ◌≡◌, ◌≢◌, refl, Bool, true, false, Option, none, some, List,
  [], ◌∷◌, ◌++◌, ◌||◌, map, length, In-append_left, String, ltb, ◌==◌, if◌then◌else◌, arith,
  append-nil,
}
use century_ring.Common.Int.{ℤ, pos, negsuc}
use century_ring.Platform.{
  Op, Sqe, Cqe, SqeFlag, fixed_file, io_drain, io_link, io_hardlink, async, buffer_select,
  skip_success, IoResult, done, BuildOptions, Opcode, Crates, Platform, Os,
}
use century_ring.Platform.Laws.{submissions_with, completions_with, CrateLaws, PlatformLaws}

abbrev pub weight : SqeFlag → ℕ
weight fixed_file = 1
weight io_drain = 2
weight io_link = 4
weight io_hardlink = 8
weight async = 16
weight buffer_select = 32
weight skip_success = 64

abbrev pub holds : ℕ → ℕ → Bool
holds x w = x / w % 2 == 1

abbrev pub join : ℕ → ℕ → ℕ
join x w = if x / w % 2 == 1 then x else x + w

abbrev pub unsigned : ℕ → ℤ → Option ℕ
unsigned w (pos n) = if ltb n (2 ^ w) then some n else none
unsigned w (negsuc n) = none

abbrev pub signed : ℕ → ℤ → Option ℤ
signed w (pos n) = if ltb n (2 ^ (w - 1)) then some (pos n) else none
signed w (negsuc n) = if ltb n (2 ^ (w - 1)) then some (negsuc n) else none

abbrev localhost : String → Option (List ℕ)
localhost _ = some (127 ∷ 0 ∷ 0 ∷ 1 ∷ [])

abbrev port_first : List ℕ → ℕ → List ℕ
port_first ip port = (port / 256) ∷ (port % 256) ∷ ip

instance abbrev pub toy_crates : Crates
toy_crates = record {
  kernel_version = some (6, 1);
  no_flags = 0;
  flag = weight;
  union = join;
  bits = λ x. x % 2 ^ 7;
  from_bits_truncate = λ x. x % 2 ^ 7;
  contains = holds;
  parse_v4 = localhost;
  parse_v6 = localhost;
  sockaddr_v4 = port_first;
  sockaddr_v6 = port_first;
  to_unsigned = unsigned;
  to_signed = signed;
}

pub record ToyRing : Type 0 where
  pub cap : ℕ
  pub queued : List Sqe
  pub finished : List Sqe

-- Opening gives fd 7, a transfer moves every byte, and the timeout expires (-ETIME).
abbrev pub answer : Op → ℤ
answer (Op.open_at _ _ _ _) = pos 7
answer (Op.read _ _ n _) = pos n
answer (Op.write _ _ n _) = pos n
answer (Op.send _ _ n _) = pos n
answer (Op.recv _ _ n _) = pos n
answer (Op.timeout _) = negsuc 61
answer _ = pos 0

abbrev pub complete : Sqe → Cqe
complete s = record { user_data = s.user_data; result = answer s.op }

abbrev pub toy_push : Sqe → ToyRing → Option ToyRing
toy_push e r =
    if ltb (length r.queued) r.cap then some (record r { queued = e ∷ r.queued }) else none

abbrev toy_submit : ToyRing → IoResult ℕ × ToyRing
toy_submit r = (done (length r.queued), record r { queued = []; finished = r.queued ++ r.finished })

abbrev all_supported : Opcode → Bool
all_supported _ = true

instance abbrev pub toy_platform : Platform ToyRing
toy_platform = record {
  push = toy_push;
  submit = toy_submit;
  submit_and_wait = λ want r. toy_submit r;
  sq_len = λ r. length r.queued;
  completion = λ r. (map complete r.finished, record r { finished = [] });
  register_eventfd = λ fd r. (done tt, r);
  build = λ o. done (record { cap = o.entries; queued = []; finished = [] });
  is_feature_nodrop = λ r. true;
  register_probe = λ r. done all_supported;
  after_kernel = λ r block bytes. bytes;
}

pub union-contains : (x : ℕ) (f : SqeFlag) → holds (join x (weight f)) (weight f) ≡ true
union-contains x fixed_file = ground arith
union-contains x _ = ground arith

pub union-keeps :
    (x : ℕ) (f g : SqeFlag) → f ≢ g → holds (join x (weight f)) (weight g) ≡ holds x (weight g)
union-keeps x fixed_file fixed_file h = absurd (h refl)
union-keeps x io_drain io_drain h = absurd (h refl)
union-keeps x io_link io_link h = absurd (h refl)
union-keeps x io_hardlink io_hardlink h = absurd (h refl)
union-keeps x async async h = absurd (h refl)
union-keeps x buffer_select buffer_select h = absurd (h refl)
union-keeps x skip_success skip_success h = absurd (h refl)
union-keeps x _ _ h = ground arith

pub bits-small : (x : ℕ) → x % 2 ^ 7 < 2 ^ 8
bits-small x = omega arith

pub none-contains : (f : SqeFlag) → holds 0 (weight f) ≡ false
none-contains fixed_file = refl
none-contains _ = refl

pub bits-known : (x : ℕ) (f : SqeFlag) → holds (x % 2 ^ 7 % 2 ^ 7) (weight f) ≡ holds x (weight f)
bits-known x fixed_file = ground arith
bits-known x _ = ground arith

pub unsigned-fits : (w n : ℕ) → n < 2 ^ w → unsigned w (pos n) ≡ some n
unsigned-fits w n h = ground arith

pub unsigned-large : (w n : ℕ) → 2 ^ w ≤ n → unsigned w (pos n) ≡ none
unsigned-large w n h = ground arith

pub signed-pos : (w n : ℕ) → n < 2 ^ (w - 1) → signed w (pos n) ≡ some (pos n)
signed-pos w n h = ground arith

pub signed-negsuc : (w n : ℕ) → n < 2 ^ (w - 1) → signed w (negsuc n) ≡ some (negsuc n)
signed-negsuc w n h = ground arith

pub signed-large : (w n : ℕ) → 2 ^ (w - 1) ≤ n → signed w (pos n) ≡ none
signed-large w n h = ground arith

pub signed-small : (w n : ℕ) → 2 ^ (w - 1) ≤ n → signed w (negsuc n) ≡ none
signed-small w n h = ground arith

abbrev pub toy_crate_laws : CrateLaws
toy_crate_laws = record {
  none_contains = none-contains;
  union_contains = union-contains;
  union_keeps = union-keeps;
  bits_small = bits-small;
  bits_known = bits-known;
  unsigned_fits = unsigned-fits;
  unsigned_large = unsigned-large;
  unsigned_negative = λ w n. refl;
  signed_pos = signed-pos;
  signed_negsuc = signed-negsuc;
  signed_large = signed-large;
  signed_small = signed-small;
}

submissions_with-append :
    (u : ℕ) (l m : List Sqe)
    → submissions_with u (l ++ m) ≡ submissions_with u l + submissions_with u m
submissions_with-append u [] m = omega arith
submissions_with-append u (s ∷ l) m = ground (arith, submissions_with-append u l m)

completions_with-map :
    (u : ℕ) (l : List Sqe) → completions_with u (map complete l) ≡ submissions_with u l
completions_with-map u [] = refl
completions_with-map u (s ∷ l) = ground (arith, completions_with-map u l)

abbrev pub toy_outstanding : ToyRing → List Sqe
toy_outstanding r = r.queued ++ r.finished

abbrev pub toy_batches : ToyRing → ℕ
toy_batches r = elim r.finished [ [] ↦ 0 | _ ∷ _ ↦ 1 ]

pub push-adds :
    (e : Sqe) (r : ToyRing) {r' : ToyRing}
    → toy_push e r ≡ some r'
    → toy_outstanding r' ≡ e ∷ toy_outstanding r
push-adds e r h = ground arith

pub push-room : (e : Sqe) (r : ToyRing) → length r.queued < r.cap → toy_push e r ≢ none
push-room e r h = ground arith

pub completion-counts :
    (r : ToyRing) (u : ℕ)
    → completions_with u (map complete r.finished) + submissions_with u (r.queued ++ [])
      ≤ submissions_with u (r.queued ++ r.finished)
completion-counts r u = omega (
  arith,
  submissions_with-append u r.queued [],
  submissions_with-append u r.queued r.finished,
  completions_with-map u r.finished,
)

pub completion-ends :
    (r : ToyRing)
    → map complete r.finished ≢ []
    → toy_batches (record r { finished = [] }) < toy_batches r
completion-ends r h = ground arith

pub build-empty :
    (o : BuildOptions) {r : ToyRing}
    → ◌≡◌ {A = IoResult ToyRing}
        (done (record { cap = o.entries; queued = []; finished = [] }))
        (done r)
    → toy_outstanding r ≡ []
build-empty o h = ground arith

abbrev pub toy_laws : PlatformLaws ToyRing
toy_laws = record {
  outstanding = toy_outstanding;
  capacity = λ r. r.cap;
  batches = toy_batches;
  push_adds = push-adds;
  push_room = push-room;
  submit_keeps = λ r s m. m;
  submit_counts = λ r u. omega arith;
  submit_capacity = λ r. refl;
  wait_keeps = λ want r s m. m;
  wait_counts = λ want r u. omega arith;
  completion_keeps = λ r s m. In-append_left r.finished (rw (append-nil r.queued) at m);
  completion_counts = completion-counts;
  completion_ends = completion-ends;
  eventfd_keeps = λ fd r. refl;
  build_empty = build-empty;
}

-- Closing a negative fd, or one that has been closed, is EBADF.
abbrev pub was_closed : List ℤ → ℤ → Bool
was_closed [] fd = false
was_closed (pos m ∷ l) (pos n) = m == n || was_closed l (pos n)
was_closed (_ ∷ l) fd = was_closed l fd

abbrev toy_close : List ℤ → ℤ → Option ℕ
toy_close calls (pos n) = if was_closed calls (pos n) then some 9 else none
toy_close calls (negsuc n) = some 9

instance abbrev pub toy_os : Os
toy_os = record { close = toy_close; eventfd = λ initial flags. done (pos 5) }
