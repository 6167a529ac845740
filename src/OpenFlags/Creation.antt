-- ===== src/OpenFlags/Creation.antt =====
-- What `enum_flags_to_int_flags` of pysrc/century_ring/enums.py sets: O_CREAT, O_CLOEXEC, and no bit
-- beyond those of an `i32`.
use century_ring.Common.{
  ℕ, zero, suc, ◌/◌, ◌^◌, ◌<◌, ◌≡◌, refl, ap, ◌∙◌, Bool, true, false, not, ◌&&◌, ◌||◌, List, [],
  ◌∷◌, bit_or, max, ◌==◌, if◌then◌else◌, arith,
}
use mathlib.Core.Path.{ap₂}
use century_ring.Common.Bits.{digit, digit-bit_or, bit_or-lt}
use century_ring.OpenFlags.{
  FileOpenMode, read_only, write_only, read_write, mode_value, FileOpenFlag, append,
  create_if_not_exists, must_create, auto_value, temporary_file, contains, to_set,
  enum_flags_to_int_flags, o_cloexec,
}
use century_ring.OpenFlags.Order.{flag_bits, all_bits, add_flags-bits, SameFlags-to_set}

-- O_CREAT is the digit at place 6, O_CLOEXEC the one at 19.
abbrev pub creat_place : ℕ
creat_place = 6

abbrev pub cloexec_place : ℕ
cloexec_place = 19

abbrev one_if : Bool → ℕ
one_if b = if b then 1 else 0

digit-flag_bits :
    (temporary : Bool) (f : FileOpenFlag)
    → digit creat_place (flag_bits temporary f)
      ≡ one_if (
          not temporary
          && (auto_value create_if_not_exists == auto_value f
              || auto_value must_create == auto_value f))
digit-flag_bits true append = refl
digit-flag_bits false append = refl
digit-flag_bits true f = refl
digit-flag_bits false f = refl

max-one_if :
    (t a b c d : Bool)
    → max (one_if (t && (a || b))) (one_if (t && (c || d))) ≡ one_if (t && (a || c || (b || d)))
max-one_if t a b c d = ground arith

digit-all_bits :
    (temporary : Bool) (flags : List FileOpenFlag)
    → digit creat_place (all_bits temporary flags)
      ≡ one_if
          (not temporary && (contains create_if_not_exists flags || contains must_create flags))
digit-all_bits temporary [] = ground arith
digit-all_bits temporary (f ∷ flags) =
    digit-bit_or creat_place (flag_bits temporary f) (all_bits temporary flags)
    ∙ ap₂ max (digit-flag_bits temporary f) (digit-all_bits temporary flags)
    ∙ max-one_if (not temporary) (auto_value create_if_not_exists == auto_value f)
        (auto_value must_create == auto_value f) (contains create_if_not_exists flags)
        (contains must_create flags)

flag_bits-small : (temporary : Bool) (f : FileOpenFlag) → flag_bits temporary f < 2 ^ 25
flag_bits-small true append = omega arith
flag_bits-small false append = omega arith
flag_bits-small true f = omega arith
flag_bits-small false f = omega arith

all_bits-small : (temporary : Bool) (flags : List FileOpenFlag) → all_bits temporary flags < 2 ^ 25
all_bits-small temporary [] = omega arith
all_bits-small temporary (f ∷ flags) =
    bit_or-lt 25 (flag_bits temporary f) (all_bits temporary flags) (flag_bits-small temporary f)
      (all_bits-small temporary flags)

-- the value as one "or"
int_flags-bits :
    (flags : List FileOpenFlag)
    → enum_flags_to_int_flags flags
      ≡ bit_or o_cloexec (all_bits (contains temporary_file flags) (to_set flags))
unfolding enum_flags_to_int_flags
int_flags-bits flags =
    add_flags-bits (contains temporary_file (to_set flags)) (to_set flags) o_cloexec
    ∙ ap (λ t. bit_or o_cloexec (all_bits t (to_set flags))) (SameFlags-to_set flags temporary_file)

digit-lt : (k x : ℕ) → digit k x < 2
digit-lt zero x = omega arith
digit-lt (suc k) x = digit-lt k (x / 2)

zero-max : (x : ℕ) → max 0 x ≡ x
zero-max x = omega arith

creat_digit :
    (flags : List FileOpenFlag)
    → digit creat_place (enum_flags_to_int_flags flags)
      ≡ one_if (
          not (contains temporary_file flags)
          && (contains create_if_not_exists flags || contains must_create flags))
creat_digit flags =
    let same = SameFlags-to_set flags in
    let t = contains temporary_file flags in
    ap (λ x. digit creat_place x) (int_flags-bits flags)
    ∙ digit-bit_or creat_place o_cloexec (all_bits t (to_set flags))
    ∙ zero-max (digit creat_place (all_bits t (to_set flags)))
    ∙ digit-all_bits t (to_set flags)
    ∙ ap₂ (λ a b. one_if (not t && (a || b))) (same create_if_not_exists) (same must_create)

cloexec_digit :
    (flags : List FileOpenFlag) → digit cloexec_place (enum_flags_to_int_flags flags) ≡ 1
cloexec_digit flags =
    let bits = all_bits (contains temporary_file flags) (to_set flags) in
    ap (λ x. digit cloexec_place x) (int_flags-bits flags)
    ∙ digit-bit_or cloexec_place o_cloexec bits
    ∙ omega (arith, digit-lt cloexec_place bits)

mode_value-small : (mode : FileOpenMode) → mode_value mode < 2 ^ 31
mode_value-small read_only = omega arith
mode_value-small write_only = omega arith
mode_value-small read_write = omega arith

int_flags-small : (flags : List FileOpenFlag) → enum_flags_to_int_flags flags < 2 ^ 31
int_flags-small flags =
    let bits = all_bits (contains temporary_file flags) (to_set flags) in
    let small = bit_or-lt 25 o_cloexec bits (omega arith) (all_bits-small _ (to_set flags)) in
    omega (arith, small, int_flags-bits flags)

-- O_CREAT is set exactly when CREATE_IF_NOT_EXISTS or MUST_CREATE is among the flags and
-- TEMPORARY_FILE is not; O_CLOEXEC is always set; with an open mode, the value fits an i32.
pub enum_flags_to_int_flags_bits :
    (flags : List FileOpenFlag) (mode : FileOpenMode)
    → (digit creat_place (enum_flags_to_int_flags flags)
        ≡ one_if (
            not (contains temporary_file flags)
            && (contains create_if_not_exists flags || contains must_create flags)))
      × (digit cloexec_place (enum_flags_to_int_flags flags) ≡ 1)
      × (bit_or (enum_flags_to_int_flags flags) (mode_value mode) < 2 ^ 31)
enum_flags_to_int_flags_bits flags mode = (
  creat_digit flags,
  cloexec_digit flags,
  bit_or-lt 31 (enum_flags_to_int_flags flags) (mode_value mode) (int_flags-small flags)
      (mode_value-small mode),
)
