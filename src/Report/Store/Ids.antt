-- ===== src/Report/Store/Ids.antt =====
-- data.go: a valid report id names a file of the report directory itself.
use ship_grip_fim.Base.{
  true, false, ◌≡◌, ◌≢◌, refl, [], ◌∷◌, arith, Text, lit, str_eq, str_eq_iff, ◌==◌, any,
  contains_any, split, split_by_whole, is_nil,
}
use ship_grip_fim.Report.Store.{valid_report_id}

no_slash : (s rest : Text) → contains_any s (b'/' ∷ rest) ≡ false → any (λ d. d == b'/') s ≡ false
unfolding contains_any
no_slash [] rest h = refl
no_slash (c ∷ s) rest h = ground (arith, no_slash s rest)

valid_id_parts :
    (id : Text)
    → valid_report_id id ≡ true
    → (contains_any id (b'/' ∷ b'\\' ∷ 0 ∷ b' ' ∷ 9 ∷ 13 ∷ 10 ∷ []) ≡ false)
      × (is_nil id ≡ false)
      × (str_eq id (lit ".") ≡ false)
      × (str_eq id (lit "..") ≡ false)
unfolding valid_report_id
valid_id_parts id h = (ground arith, ground arith, ground arith, ground arith)

-- A valid report id is one component of a path, and neither empty, nor "." nor "..": joined to the
-- report directory it cannot leave that directory.
pub valid_id_stays :
    (id : Text)
    → valid_report_id id ≡ true
    → (split b'/' id ≡ id ∷ []) × (id ≢ []) × (id ≢ lit ".") × (id ≢ lit "..")
unfolding split
valid_id_stays id h =
    let (safe, given, dot, dots) = valid_id_parts id h in
    (
      split_by_whole (λ d. d == b'/') id (no_slash id (b'\\' ∷ 0 ∷ b' ' ∷ 9 ∷ 13 ∷ 10 ∷ []) safe),
      λ e. cc (rw e at given),
      λ e. cc ((str_eq_iff id (lit ".")).1 e),
      λ e. cc ((str_eq_iff id (lit "..")).1 e),
    )
