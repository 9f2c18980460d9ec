-- ===== src/Types/Codes.antt =====
-- The conversions of data types of src/torc_comm.c, one after the other.
use torc_lite.Common.{
  ℕ, ◌≡◌, refl, Option, none, some, List, [], ◌∷◌, true, false, ◌==◌, if◌then◌else◌, has, Distinct,
  ◌↔◌, arith,
}
use torc_lite.Types.{
  Handles, torc_mpi2b_type, torc_b2mpi_type, t_mpi_char, t_mpi_int, t_mpi_long, t_mpi_long_long,
  t_mpi_unsigned, t_mpi_unsigned_long, t_mpi_unsigned_long_long, t_mpi_float, t_mpi_double,
  t_mpi_long_double, t_mpi_real, t_mpi_double_precision, t_mpi_integer, t_mpi_character,
}

-- Handles and numbers of the supported types, in the order in which they are tried.
abbrev pub codes : Handles → List (ℕ × ℕ)
codes h =
    (h.mpi_char, t_mpi_char)
    ∷ (h.mpi_int, t_mpi_int)
    ∷ (h.mpi_long, t_mpi_long)
    ∷ (h.mpi_long_long, t_mpi_long_long)
    ∷ (h.mpi_unsigned, t_mpi_unsigned)
    ∷ (h.mpi_unsigned_long, t_mpi_unsigned_long)
    ∷ (h.mpi_unsigned_long_long, t_mpi_unsigned_long_long)
    ∷ (h.mpi_float, t_mpi_float)
    ∷ (h.mpi_double, t_mpi_double)
    ∷ (h.mpi_long_double, t_mpi_long_double)
    ∷ (h.mpi_real, t_mpi_real)
    ∷ (h.mpi_double_precision, t_mpi_double_precision)
    ∷ (h.mpi_integer, t_mpi_integer)
    ∷ (h.mpi_character, t_mpi_character)
    ∷ []

abbrev pub handles : List (ℕ × ℕ) → List ℕ
handles [] = []
handles ((d, b) ∷ cs) = d ∷ handles cs

to_code : ℕ → List (ℕ × ℕ) → Option ℕ
to_code x [] = none
to_code x ((d, b) ∷ cs) = if x == d then some b else to_code x cs

to_handle : ℕ → List (ℕ × ℕ) → Option ℕ
to_handle x [] = none
to_handle x ((d, b) ∷ cs) = if x == b then some d else to_handle x cs

mpi2b-to_code : (h : Handles) (x : ℕ) → torc_mpi2b_type h x ≡ to_code x (codes h)
unfolding torc_mpi2b_type to_code
mpi2b-to_code h x = refl

b2mpi-to_handle : (h : Handles) (x : ℕ) → torc_b2mpi_type h x ≡ to_handle x (codes h)
unfolding torc_b2mpi_type to_handle
b2mpi-to_handle h x = refl

has_handle : (cs : List (ℕ × ℕ)) (x d : ℕ) → to_handle x cs ≡ some d → has d (handles cs) ≡ true
unfolding to_handle
has_handle [] x d e = cc
has_handle ((d', b) ∷ cs) x d e = ground (arith, has_handle cs x d)

to_code-none : (cs : List (ℕ × ℕ)) (x : ℕ) → (to_code x cs ≡ none) ↔ (has x (handles cs) ≡ false)
unfolding to_code
to_code-none [] x = (λ _. refl, λ _. refl)
to_code-none ((d, b) ∷ cs) x = ground (arith, to_code-none cs x)

to_code-to_handle :
    (cs : List (ℕ × ℕ)) (x d : ℕ)
    → Distinct (handles cs)
    → to_handle x cs ≡ some d
    → to_code d cs ≡ some x
unfolding to_handle to_code
to_code-to_handle [] x d dis e = cc
to_code-to_handle ((d', b) ∷ cs) x d dis e =
    ground (arith, to_code-to_handle cs x d dis.1, has_handle cs x d)

-- The handle of a type survives the way to its number and back, whatever handles MPI uses.
pub b2mpi-mpi2b :
    (h : Handles) (dtype : ℕ) {btype : ℕ}
    → torc_mpi2b_type h dtype ≡ some btype
    → torc_b2mpi_type h btype ≡ some dtype
unfolding torc_mpi2b_type torc_b2mpi_type
b2mpi-mpi2b h dtype e = ground arith

-- If MPI tells its types apart, a number that stands for a type survives the way to the handle and
-- back.
pub mpi2b-b2mpi :
    (h : Handles) (btype : ℕ) {dtype : ℕ}
    → Distinct (handles (codes h))
    → torc_b2mpi_type h btype ≡ some dtype
    → torc_mpi2b_type h dtype ≡ some btype
mpi2b-b2mpi h btype {dtype} dis e =
    rw (mpi2b-to_code h dtype)
      (to_code-to_handle (codes h) btype dtype dis (rw (b2mpi-to_handle h btype) at e))

-- The conversion aborts exactly for the handles that are none of the supported ones.
pub mpi2b-none :
    (h : Handles) (dtype : ℕ)
    → (torc_mpi2b_type h dtype ≡ none) ↔ (has dtype (handles (codes h)) ≡ false)
mpi2b-none h dtype = rw (mpi2b-to_code h dtype) (to_code-none (codes h) dtype)
