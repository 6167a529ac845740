-- ===== src/OpenFlags.antt =====
-- pysrc/century_ring/enums.py: the modes and flags of opening a file. The constants are those of
-- Python's `os` on Linux for x86-64.
pub mod Order
pub mod Creation
use century_ring.Common.{ℕ, Bool, true, false, ◌||◌, List, [], ◌∷◌, bit_or, ◌==◌, if◌then◌else◌}

pub data FileOpenMode : Type 0 where
  read_only write_only read_write : FileOpenMode

-- os.O_RDONLY, os.O_WRONLY, os.O_RDWR
abbrev pub mode_value : FileOpenMode → ℕ
mode_value read_only = 0
mode_value write_only = 1
mode_value read_write = 2

pub data FileOpenFlag : Type 0 where
  append create_if_not_exists must_create direct must_be_directory path : FileOpenFlag
  no_access_time no_follow temporary_file truncate : FileOpenFlag

abbrev pub o_creat : ℕ
o_creat = 0o100

abbrev pub o_excl : ℕ
o_excl = 0o200

abbrev pub o_trunc : ℕ
o_trunc = 0o1000

abbrev pub o_append : ℕ
o_append = 0o2000

abbrev pub o_direct : ℕ
o_direct = 0o40000

abbrev pub o_directory : ℕ
o_directory = 0o200000

abbrev pub o_nofollow : ℕ
o_nofollow = 0o400000

abbrev pub o_noatime : ℕ
o_noatime = 0o1000000

abbrev pub o_cloexec : ℕ
o_cloexec = 0o2000000

abbrev pub o_sync : ℕ
o_sync = 0o4010000

abbrev pub o_path : ℕ
o_path = 0o10000000

-- it holds the bit of O_DIRECTORY
abbrev pub o_tmpfile : ℕ
o_tmpfile = 0o20200000

-- the value that `enum.auto()` gives
abbrev pub auto_value : FileOpenFlag → ℕ
auto_value append = 1
auto_value create_if_not_exists = 2
auto_value must_create = 3
auto_value direct = 4
auto_value must_be_directory = 5
auto_value path = 6
auto_value no_access_time = 7
auto_value no_follow = 8
auto_value temporary_file = 9
auto_value truncate = 10

-- `flag in flags`
abbrev pub contains : FileOpenFlag → List FileOpenFlag → Bool
contains f [] = false
contains f (g ∷ flags) = auto_value f == auto_value g || contains f flags

-- `set(flags)`
abbrev pub to_set : List FileOpenFlag → List FileOpenFlag
to_set [] = []
to_set (f ∷ flags) = let rest = to_set flags in if contains f rest then rest else f ∷ rest

-- one `case` of the `match`; `temporary` is `FileOpenFlag.TEMPORARY_FILE in flags`
abbrev pub add_flag : Bool → FileOpenFlag → ℕ → ℕ
add_flag temporary append final = bit_or final o_append
add_flag temporary create_if_not_exists final = if temporary then final else bit_or final o_creat
add_flag temporary must_create final =
    if temporary then bit_or final o_excl else bit_or (bit_or final o_excl) o_creat
add_flag temporary direct final = bit_or final (bit_or o_direct o_sync)
add_flag temporary must_be_directory final = bit_or final o_directory
add_flag temporary path final = bit_or final o_path
add_flag temporary no_access_time final = bit_or final o_noatime
add_flag temporary no_follow final = bit_or final o_nofollow
add_flag temporary temporary_file final = bit_or final o_tmpfile
add_flag temporary truncate final = bit_or final o_trunc

-- the loop over the set, whose order Python does not fix
unfoldable pub add_flags : Bool → List FileOpenFlag → ℕ → ℕ
add_flags temporary [] final = final
add_flags temporary (f ∷ flags) final = add_flags temporary flags (add_flag temporary f final)

unfoldable pub enum_flags_to_int_flags : List FileOpenFlag → ℕ
unfolding add_flags
enum_flags_to_int_flags flags =
    let unique = to_set flags in add_flags (contains temporary_file unique) unique o_cloexec
