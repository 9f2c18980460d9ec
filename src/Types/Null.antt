-- ===== src/Types/Null.antt =====
-- nullmpi: the handles of the stub of MPI in nullmpi/include/mpi.h, and the sizes it gives them.
use torc_lite.Common.{ℕ, ◌/◌, ◌%◌, ◌≡◌, some, arith, Distinct, ◌↔◌}
use torc_lite.Types.{Handles, torc_mpi2b_type, torc_b2mpi_type}
use torc_lite.Types.Codes.{codes, handles, mpi2b-b2mpi, b2mpi-mpi2b}

-- The handles of the types that the program supports.
abbrev pub null_handles : Handles
null_handles = record {
  mpi_char = 1275068673;
  mpi_int = 1275069445;
  mpi_long = 1275069447;
  mpi_long_long = 1275070473;
  mpi_unsigned = 1275069446;
  mpi_unsigned_long = 1275069448;
  mpi_unsigned_long_long = 1275070489;
  mpi_float = 1275069450;
  mpi_double = 1275070475;
  mpi_long_double = 1275071500;
  mpi_real = 1275069468;
  mpi_double_precision = 1275070495;
  mpi_integer = 1275069467;
  mpi_character = 1275068698;
}

-- `MPID_Datatype_get_basic_size(a)`: `(a & 0x0000ff00) >> 8`.
unfoldable pub null_type_size : ℕ → ℕ
null_type_size a = a / 256 % 256

-- The stub tells the types apart.
null_handles-Distinct : Distinct (handles (codes null_handles))
null_handles-Distinct = ground arith

-- With the handles of nullmpi the numbers of the data types and the handles are in one-to-one
-- correspondence: each way leads back.
pub null_codes :
    (btype dtype : ℕ)
    → (torc_b2mpi_type null_handles btype ≡ some dtype)
      ↔ (torc_mpi2b_type null_handles dtype ≡ some btype)
null_codes btype dtype =
    (mpi2b-b2mpi null_handles btype null_handles-Distinct, b2mpi-mpi2b null_handles dtype)
