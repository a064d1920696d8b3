-- ===== src/MockHsm/Listing/Passing.antt =====
-- What a filter asks of an object, and that the listing tests it (`list_objects` of
-- src/mockhsm/command.rs, src/object/filter.rs).
use yubihsm_rs.Base.{
  ◌≡◌, refl, sym, ap, ◌∙◌, ◌↔◌, List, [], ◌∷◌, All, Result, ok, Bool, true, false, ◌&&◌, ==_iff,
  ==_refl, bytes_eq→eq, bytes_eq_refl,
}
use yubihsm_rs.Algorithm.Any as Algorithms
use yubihsm_rs.Algorithm.Any.{Algorithm}
use yubihsm_rs.Algorithm.Error.{AlgorithmErrorKind}
use yubihsm_rs.Object.Error.{ObjectErrorKind}
use yubihsm_rs.Object.Filter.{Filter}
use yubihsm_rs.Object.Info.{Info}
use yubihsm_rs.Object.Label as Label
use yubihsm_rs.Object.Types
use yubihsm_rs.Object.Types.{ObjectType}
use yubihsm_rs.MockHsm.Keys.{Keys}
use yubihsm_rs.MockHsm.Listing.{passes, passes_all}

both_true : (a b : Bool) → a && b ≡ true → (a ≡ true) × (b ≡ true)
both_true true b e = (refl, e)
both_true false b e = cc

module _ (K : Keys) where
  -- An object's info has what the filter names: its algorithm, label, number or type, or a set of
  -- capabilities or domains that holds the filter's.
  abbrev pub Matches : Info → Filter → Type 0
  Matches info (Filter.algorithm alg) = info.algorithm ≡ alg
  Matches info (Filter.capabilities caps) = K.contains info.capabilities caps ≡ true
  Matches info (Filter.domains doms) = K.contains info.domains doms ≡ true
  Matches info (Filter.label label) = info.label ≡ label
  Matches info (Filter.id id) = info.object_id ≡ id
  Matches info (Filter.object_type ty) = info.object_type ≡ ty

  same_algorithm : (a b : Algorithm) → Algorithms.to_u8 a ≡ Algorithms.to_u8 b → a ≡ b
  same_algorithm a b h =
      same (sym (Algorithms.from_u8-to_u8 a) ∙ ap Algorithms.from_u8 h ∙ Algorithms.from_u8-to_u8 b)
    where
      same : ◌≡◌ {A = Result AlgorithmErrorKind Algorithm} (ok a) (ok b) → a ≡ b
      same e = cc

  same_type : (a b : ObjectType) → Types.to_u8 a ≡ Types.to_u8 b → a ≡ b
  same_type a b h = same (sym (Types.from_u8-to_u8 a) ∙ ap Types.from_u8 h ∙ Types.from_u8-to_u8 b)
    where
      same : ◌≡◌ {A = Result ObjectErrorKind ObjectType} (ok a) (ok b) → a ≡ b
      same e = cc

  passes_iff : (info : Info) (filter : Filter) → (passes K info filter ≡ true) ↔ Matches info filter
  unfolding passes Label.label_eq
  passes_iff info (Filter.algorithm alg) = (
    λ e. same_algorithm info.algorithm alg ((==_iff _ _).0 e),
    λ e. rw e (==_refl (Algorithms.to_u8 alg)),
  )
  passes_iff info (Filter.capabilities caps) = (λ e. e, λ e. e)
  passes_iff info (Filter.domains doms) = (λ e. e, λ e. e)
  passes_iff info (Filter.label label) = (λ e. bytes_eq→eq _ _ e, λ e. rw e (bytes_eq_refl label))
  passes_iff info (Filter.id id) = ==_iff info.object_id id
  passes_iff info (Filter.object_type ty) =
      (λ e. same_type info.object_type ty ((==_iff _ _).0 e), λ e. rw e (==_refl (Types.to_u8 ty)))

  -- Every filter is passed exactly if the info has what each of them names.
  pub passes_all_iff :
      (info : Info) (filters : List Filter)
      → (passes_all K info filters ≡ true) ↔ All (Matches info) filters
  unfolding passes_all
  passes_all_iff info [] = (λ _. tt, λ _. refl)
  passes_all_iff info (filter ∷ filters) =
      let (sound, complete) = passes_iff info filter in
      let (sound_all, complete_all) = passes_all_iff info filters in
      (
        λ e. let (first, rest) = both_true _ _ e in (sound first, sound_all rest),
        λ h. rw (complete h.0) (complete_all h.1),
      )
