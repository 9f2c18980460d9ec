-- ===== src/Types.antt =====
-- The data types of arguments, src/torc_comm.c: MPI handles and the program's own numbers for them.
pub mod Codes
pub mod Null
use torc_lite.Common.{ℕ, Option, none, some, ◌==◌, if◌then◌else◌}

-- The MPI library's handles of the data types that the program supports. MPI is not part of the
-- program: the handles are a parameter.
pub record Handles : Type 0 where
  pub mpi_char : ℕ
  pub mpi_int : ℕ
  pub mpi_long : ℕ
  pub mpi_long_long : ℕ
  pub mpi_unsigned : ℕ
  pub mpi_unsigned_long : ℕ
  pub mpi_unsigned_long_long : ℕ
  pub mpi_float : ℕ
  pub mpi_double : ℕ
  pub mpi_long_double : ℕ
  pub mpi_real : ℕ
  pub mpi_double_precision : ℕ
  pub mpi_integer : ℕ
  pub mpi_character : ℕ

-- The enumeration `T_MPI_…` of include/torc_mpi_internal.h, as far as it is used.
abbrev pub t_mpi_char : ℕ
t_mpi_char = 0

abbrev pub t_mpi_int : ℕ
t_mpi_int = 7

abbrev pub t_mpi_long : ℕ
t_mpi_long = 9

abbrev pub t_mpi_long_long : ℕ
t_mpi_long_long = 14

abbrev pub t_mpi_unsigned : ℕ
t_mpi_unsigned = 8

abbrev pub t_mpi_unsigned_long : ℕ
t_mpi_unsigned_long = 10

abbrev pub t_mpi_unsigned_long_long : ℕ
t_mpi_unsigned_long_long = 15

abbrev pub t_mpi_float : ℕ
t_mpi_float = 11

abbrev pub t_mpi_double : ℕ
t_mpi_double = 12

abbrev pub t_mpi_long_double : ℕ
t_mpi_long_double = 13

abbrev pub t_mpi_real : ℕ
t_mpi_real = 19

abbrev pub t_mpi_double_precision : ℕ
t_mpi_double_precision = 20

abbrev pub t_mpi_integer : ℕ
t_mpi_integer = 21

abbrev pub t_mpi_character : ℕ
t_mpi_character = 23

-- `none` is the abort for an unsupported type.
unfoldable pub torc_mpi2b_type : Handles → ℕ → Option ℕ
torc_mpi2b_type h dtype =
    if dtype == h.mpi_char
    then some t_mpi_char
    else if dtype == h.mpi_int
    then some t_mpi_int
    else if dtype == h.mpi_long
    then some t_mpi_long
    else if dtype == h.mpi_long_long
    then some t_mpi_long_long
    else if dtype == h.mpi_unsigned
    then some t_mpi_unsigned
    else if dtype == h.mpi_unsigned_long
    then some t_mpi_unsigned_long
    else if dtype == h.mpi_unsigned_long_long
    then some t_mpi_unsigned_long_long
    else if dtype == h.mpi_float
    then some t_mpi_float
    else if dtype == h.mpi_double
    then some t_mpi_double
    else if dtype == h.mpi_long_double
    then some t_mpi_long_double
    else if dtype == h.mpi_real
    then some t_mpi_real
    else if dtype == h.mpi_double_precision
    then some t_mpi_double_precision
    else if dtype == h.mpi_integer
    then some t_mpi_integer
    else if dtype == h.mpi_character
    then some t_mpi_character
    else none

unfoldable pub torc_b2mpi_type : Handles → ℕ → Option ℕ
torc_b2mpi_type h btype =
    if btype == t_mpi_char
    then some h.mpi_char
    else if btype == t_mpi_int
    then some h.mpi_int
    else if btype == t_mpi_long
    then some h.mpi_long
    else if btype == t_mpi_long_long
    then some h.mpi_long_long
    else if btype == t_mpi_unsigned
    then some h.mpi_unsigned
    else if btype == t_mpi_unsigned_long
    then some h.mpi_unsigned_long
    else if btype == t_mpi_unsigned_long_long
    then some h.mpi_unsigned_long_long
    else if btype == t_mpi_float
    then some h.mpi_float
    else if btype == t_mpi_double
    then some h.mpi_double
    else if btype == t_mpi_long_double
    then some h.mpi_long_double
    else if btype == t_mpi_real
    then some h.mpi_real
    else if btype == t_mpi_double_precision
    then some h.mpi_double_precision
    else if btype == t_mpi_integer
    then some h.mpi_integer
    else if btype == t_mpi_character
    then some h.mpi_character
    else none
