-- ===== src/OpenFlags/Order.antt =====
-- The order in which Python iterates over `set(flags)`, and repetitions, make no difference to
-- `enum_flags_to_int_flags` of pysrc/century_ring/enums.py.
use century_ring.Common.{
  ℕ, ◌≡◌, refl, sym, ap, ◌∙◌, Bool, true, false, ◌||◌, inl, inr, Bool-cases, List, [], ◌∷◌, bit_or,
  ◌==◌, if◌then◌else◌, arith,
}
use century_ring.Common.Bits.{bit_or_assoc, bit_or_comm, bit_or_idem, zero-bit_or}
use century_ring.OpenFlags.{
  FileOpenFlag, append, create_if_not_exists, must_create, direct, must_be_directory, path,
  no_access_time, no_follow, temporary_file, truncate, auto_value, contains, to_set, add_flag,
  add_flags, enum_flags_to_int_flags, o_creat, o_excl, o_trunc, o_append, o_direct, o_directory,
  o_nofollow, o_noatime, o_cloexec, o_sync, o_path, o_tmpfile,
}

-- the bits that one flag adds
abbrev pub flag_bits : Bool → FileOpenFlag → ℕ
flag_bits temporary append = o_append
flag_bits temporary create_if_not_exists = if temporary then 0 else o_creat
flag_bits temporary must_create = if temporary then o_excl else bit_or o_excl o_creat
flag_bits temporary direct = bit_or o_direct o_sync
flag_bits temporary must_be_directory = o_directory
flag_bits temporary path = o_path
flag_bits temporary no_access_time = o_noatime
flag_bits temporary no_follow = o_nofollow
flag_bits temporary temporary_file = o_tmpfile
flag_bits temporary truncate = o_trunc

bit_or-zero : (a : ℕ) → bit_or a 0 ≡ a
bit_or-zero a = bit_or_comm a 0 ∙ zero-bit_or a

pub add_flag-bits :
    (temporary : Bool) (f : FileOpenFlag) (final : ℕ)
    → add_flag temporary f final ≡ bit_or final (flag_bits temporary f)
add_flag-bits true create_if_not_exists final = sym (bit_or-zero final)
add_flag-bits false must_create final = bit_or_assoc final o_excl o_creat
add_flag-bits false create_if_not_exists final = refl
add_flag-bits true must_create final = refl
add_flag-bits t f final = refl

-- the bits of all flags of a list
abbrev pub all_bits : Bool → List FileOpenFlag → ℕ
all_bits temporary [] = 0
all_bits temporary (f ∷ flags) = bit_or (flag_bits temporary f) (all_bits temporary flags)

pub add_flags-bits :
    (temporary : Bool) (flags : List FileOpenFlag) (final : ℕ)
    → add_flags temporary flags final ≡ bit_or final (all_bits temporary flags)
unfolding add_flags
add_flags-bits temporary [] final = sym (bit_or-zero final)
add_flags-bits temporary (f ∷ flags) final =
    add_flags-bits temporary flags (add_flag temporary f final)
    ∙ ap (λ x. bit_or x (all_bits temporary flags)) (add_flag-bits temporary f final)
    ∙ bit_or_assoc final (flag_bits temporary f) (all_bits temporary flags)

auto_value-injective : (f g : FileOpenFlag) → auto_value f ≡ auto_value g → f ≡ g
auto_value-injective f g h = ground arith

-- Every flag that is there is among the bits already.
absorb :
    (temporary : Bool) (f : FileOpenFlag) (flags : List FileOpenFlag)
    → contains f flags ≡ true
    → bit_or (flag_bits temporary f) (all_bits temporary flags) ≡ all_bits temporary flags
absorb temporary f [] h = cc
absorb temporary f (g ∷ flags) h =
    let b = flag_bits temporary f in
    let d = flag_bits temporary g in
    let rest = all_bits temporary flags in
    elim (Bool-cases (auto_value f == auto_value g)) [
      | inl same ↦
          let eq : f ≡ g = auto_value-injective f g (ground arith) in
          rw eq (sym (bit_or_assoc d d rest) ∙ ap (λ x. bit_or x rest) (bit_or_idem d))
      | inr other ↦
          sym (bit_or_assoc b d rest)
          ∙ ap (λ x. bit_or x rest) (bit_or_comm b d)
          ∙ bit_or_assoc d b rest
          ∙ ap (λ x. bit_or d x) (absorb temporary f flags (rw other at h))
    ]

-- the same members, in any order and as often as may be
abbrev pub SameFlags : List FileOpenFlag → List FileOpenFlag → Type 0
SameFlags a b = (f : FileOpenFlag) → contains f a ≡ contains f b

contains-head : (f : FileOpenFlag) (flags : List FileOpenFlag) → contains f (f ∷ flags) ≡ true
contains-head f flags = ground arith

contains-tail :
    (f g : FileOpenFlag) (flags : List FileOpenFlag)
    → contains f flags ≡ true
    → contains f (g ∷ flags) ≡ true
contains-tail f g flags h = ground arith

absorb_all :
    (temporary : Bool) (a b : List FileOpenFlag)
    → ((f : FileOpenFlag) → contains f a ≡ true → contains f b ≡ true)
    → bit_or (all_bits temporary a) (all_bits temporary b) ≡ all_bits temporary b
absorb_all temporary [] b h = zero-bit_or (all_bits temporary b)
absorb_all temporary (f ∷ a) b h =
    bit_or_assoc (flag_bits temporary f) (all_bits temporary a) (all_bits temporary b)
    ∙ ap (λ x. bit_or (flag_bits temporary f) x)
        (absorb_all temporary a b (λ g m. h g (contains-tail g f a m)))
    ∙ absorb temporary f b (h f (contains-head f a))

all_bits-same :
    (temporary : Bool) (a b : List FileOpenFlag)
    → SameFlags a b
    → all_bits temporary a ≡ all_bits temporary b
all_bits-same temporary a b same =
    sym (absorb_all temporary b a (λ f m. same f ∙ m))
    ∙ bit_or_comm (all_bits temporary b) (all_bits temporary a)
    ∙ absorb_all temporary a b (λ f m. sym (same f) ∙ m)

pub SameFlags-to_set : (flags : List FileOpenFlag) → SameFlags (to_set flags) flags
SameFlags-to_set [] f = refl
SameFlags-to_set (g ∷ flags) f = elim (Bool-cases (contains g (to_set flags))) [
  | inl again ↦ rw again (elim (Bool-cases (auto_value f == auto_value g)) [
    | inl same ↦
        let eq : f ≡ g = auto_value-injective f g (ground arith) in
        rw same (ap (λ h. contains h (to_set flags)) eq ∙ again)
    | inr other ↦ rw other (SameFlags-to_set flags f)
  ])
  | inr new ↦ rw new (ap (λ b. auto_value f == auto_value g || b) (SameFlags-to_set flags f))
]

-- Whatever order Python visits the set in, and whichever flags were given twice, the loop over the
-- members gives the value of `enum_flags_to_int_flags`.
pub enum_flags_any_order :
    (flags order : List FileOpenFlag)
    → SameFlags order flags
    → add_flags (contains temporary_file order) order o_cloexec ≡ enum_flags_to_int_flags flags
unfolding enum_flags_to_int_flags
enum_flags_any_order flags order same =
    let t = contains temporary_file order in
    let unique = to_set flags in
    let members : SameFlags order unique = λ f. same f ∙ sym (SameFlags-to_set flags f) in
    add_flags-bits t order o_cloexec
    ∙ ap (λ x. bit_or o_cloexec x) (all_bits-same t order unique members)
    ∙ sym (add_flags-bits t unique o_cloexec)
    ∙ ap (λ b. add_flags b unique o_cloexec) (members temporary_file)

-- the value as one "or"
pub enum_flags_to_int_flags-bits :
    (flags : List FileOpenFlag)
    → enum_flags_to_int_flags flags
      ≡ bit_or o_cloexec (all_bits (contains temporary_file flags) flags)
enum_flags_to_int_flags-bits flags =
    sym (enum_flags_any_order flags flags (λ f. refl))
    ∙ add_flags-bits (contains temporary_file flags) flags o_cloexec
