-- ===== src/Pymod/HeaderEnd.antt =====
-- src/pymod.rs: the position that `header_section_slice` returns.
use rustyknife.Headersection.{HeaderField, header_section}
use rustyknife.Headersection.Lossless.{lines_of, header_section-lossless}
use rustyknife.Nom.{Nom, IResult, ok, err, Err}
use rustyknife.Prelude.{
  ℕ, ◌+◌, ◌≡◌, ◌⊎◌, inl, inr, refl, sym, ◌∙◌, List, [], ◌∷◌, ◌++◌, Option, some, Bytes, codes,
  length, take, drop, length-append, take-append, drop-append, append_assoc, arith,
}
use rustyknife.Pymod.EntryPoints.{checked_sub, header_section_slice}
use rustyknife.Pymod.Objects.{Python, Object, objects, PyResult, returned, raised, field_into_py}

-- The lines of the fields, perhaps with the empty line behind them.
abbrev pub HeaderText : List HeaderField → Bytes → Type 0
HeaderText fs t = (t ≡ lines_of fs) ⊎ (t ≡ lines_of fs ++ codes "\r\n")

module _ ⦃nom : Nom⦄ where
  -- The header text stands in front of the body.
  header_text :
      (i body : Bytes) (fs : List HeaderField)
      → header_section i ≡ ok body fs
      → (t : Bytes) × (i ≡ t ++ body) × HeaderText fs t
  header_text i body fs e = elim (header_section-lossless i body fs e).0 [
    | inl s ↦ (lines_of fs, s, inl refl)
    | inr s ↦ (
      lines_of fs ++ codes "\r\n",
      s ∙ sym (append_assoc (lines_of fs) (codes "\r\n") body),
      inr refl,
    )
  ]

-- A suffix is cut off where it starts.
checked_sub-append : (t r : Bytes) → checked_sub (length (t ++ r)) (length r) ≡ some (length t)
checked_sub-append t r =
    let e : length (t ++ r) ≡ length t + length r = length-append t r in rw e (ground arith)

module _ ⦃nom : Nom⦄ ⦃py : Python⦄ where
  -- How the function answers: with the error of the parser, or with the fields and a position.
  pub data Answer (i : Bytes) : Option (PyResult Object) → Type 0 where
    no_section :
        {o : Option (PyResult Object)} (e : Err)
        → header_section i ≡ err e
        → o ≡ some (raised (py.debug_err e ++ codes "."))
        → Answer i o
    section :
        {o : Option (PyResult Object)} (fs : List HeaderField) (end : ℕ) (body : Bytes)
        → header_section i ≡ ok body fs
        → o
          ≡ some
              (returned (py.py_tuple (py.py_list (objects field_into_py fs) ∷ py.py_int end ∷ [])))
        → HeaderText fs (take end i)
        → drop end i ≡ body
        → Answer i o

  -- `header_section_slice` never panics. It raises an error where `header_section` does, and else it
  -- returns the fields, in order, and the position at which the body starts: before it stand the
  -- lines of the fields, perhaps with one empty line.
  pub header_section_slice-Answer : (i : Bytes) → Answer i (header_section_slice i)
  unfolding header_section_slice
  header_section_slice-Answer i = go (header_section i) refl
    where
      go :
          (x : IResult (List HeaderField))
          → header_section i ≡ x
          → Answer i (header_section_slice i)
      go (err e) h = no_section e h (rw (header_section_slice, h) refl)
      go (ok body fs) h =
          let (t, split, text) = header_text i body fs h in
          let sub : checked_sub (length i) (length body) ≡ some (length t) =
            rw split (checked_sub-append t body) in
          section fs (length t) body h (rw (header_section_slice, h, sub) refl)
            (rw split (rw (take-append t body) text)) (rw split (drop-append t body))
