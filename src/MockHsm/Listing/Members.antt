-- ===== src/MockHsm/Listing/Members.antt =====
-- What a listing of objects lists (`list_objects` of src/mockhsm/command.rs).
use yubihsm_rs.Base.{
  ℕ, ◌/◌, ◌%◌, ◌≡◌, refl, sym, ap, none, Bool, ◌⊎◌, inl, inr, ◌↔◌, List, [], ◌∷◌, length, All, ok,
  true, false, Bool-cases, arith,
}
use mathlib.Core.Path.{subst}
use yubihsm_rs.Base.Programs.{◌>>=◌, get, lift, pure}
use yubihsm_rs.Wire.{write}
use yubihsm_rs.Wire.Integers.{be_bytes}
use yubihsm_rs.Object.Types
use yubihsm_rs.Response.Code.{ResponseCode}
use yubihsm_rs.MockHsm.Listing.Passing.{Matches, passes_all_iff}
use yubihsm_rs.Command.Code.{CommandCode}
use yubihsm_rs.Object.Filter as Filters
use yubihsm_rs.Object.Filter.{Filter}
use yubihsm_rs.Object.Filter.RoundTrip.{IsWellFormed, filter_parse_all-serialize_all}
use yubihsm_rs.Object.Info.{Entry}
use yubihsm_rs.Response.Message as Response
use yubihsm_rs.Response.Message.{ResponseMessage}
use yubihsm_rs.MockHsm.Error.{ConnectorErrorKind}
use yubihsm_rs.MockHsm.Keys.{Keys}
use yubihsm_rs.MockHsm.Objects.{Object, Objects, entry_of}
use yubihsm_rs.MockHsm.Requests.{success, entries_bytes}
use yubihsm_rs.MockHsm.State.{State}
use yubihsm_rs.MockHsm.Listing.{passes_all, listed, filters_of, list_objects}

-- An object of a map, whatever its handle, and an entry of a list.
abbrev pub IsKept : {K : Keys} → Object K → Objects K → Type 0
IsKept o [] = ⊥
IsKept o ((k, p) ∷ objects) = (p ≡ o) ⊎ IsKept o objects

abbrev pub IsEntry : Entry → List Entry → Type 0
IsEntry e [] = ⊥
IsEntry e (f ∷ entries) = (f ≡ e) ⊎ IsEntry e entries

-- The four bytes of each entry: the number of the object, its type and its sequence number.
abbrev pub sent_as : List Entry → List ℕ
sent_as [] = []
sent_as (e ∷ entries) =
    e.object_id / 256 % 256
    ∷ e.object_id % 256
    ∷ Types.to_u8 e.object_type
    ∷ e.sequence % 256
    ∷ sent_as entries

entries_bytes_eq : (entries : List Entry) → entries_bytes entries ≡ sent_as entries
unfolding entries_bytes write be_bytes
entries_bytes_eq [] = refl
entries_bytes_eq (e ∷ entries) = rw (small, entries_bytes_eq entries)
  where
    small : Types.to_u8 e.object_type % 256 ≡ Types.to_u8 e.object_type
    small = omega (arith, Types.to_u8-IsByte e.object_type)

-- The entry of an object: its number, its type and its sequence number.
abbrev pub shown_as : {K : Keys} → Object K → Entry
shown_as o = record {
  object_id = o.object_info.object_id;
  object_type = o.object_info.object_type;
  sequence = o.object_info.sequence;
}

-- A list of entries is that of the objects, in their order and each of them once, which have what
-- every filter names.
pub data IsListing (K : Keys) (filters : List Filter) : Objects K → List Entry → Type 0 where
  ended : IsListing K filters [] []
  shown :
      (handle : ℕ) (o : Object K) {objects : Objects K} {entries : List Entry}
      → All (Matches K o.object_info) filters
      → IsListing K filters objects entries
      → IsListing K filters ((handle, o) ∷ objects) (shown_as o ∷ entries)
  hidden :
      (handle : ℕ) (o : Object K) {objects : Objects K} {entries : List Entry}
      → ¬ All (Matches K o.object_info) filters
      → IsListing K filters objects entries
      → IsListing K filters ((handle, o) ∷ objects) entries

module _ (K : Keys) where
  true-ne-false : {b : Bool} → b ≡ true → b ≡ false → ⊥
  true-ne-false p q = cc

  listed-IsListing :
      (filters : List Filter) (objects : Objects K)
      → IsListing K filters objects (listed K filters objects)
  unfolding listed entry_of
  listed-IsListing filters [] = ended
  listed-IsListing filters ((handle, o) ∷ objects) =
      elim (Bool-cases (passes_all K o.object_info filters)) [
        | inl pass ↦ rw pass (
            shown handle o ((passes_all_iff K o.object_info filters).0 pass)
              (listed-IsListing filters objects))
        | inr stop ↦ rw stop (
            hidden handle o (λ h. true-ne-false ((passes_all_iff K o.object_info filters).1 h) stop)
              (listed-IsListing filters objects))
      ]

  -- Of which objects there are entries.
  abbrev Shown : List Filter → Objects K → Entry → Type 0
  Shown filters objects e =
      (o : Object K) × IsKept o objects × All (Matches K o.object_info) filters × (shown_as o ≡ e)

  later :
      (filters : List Filter) (objects : Objects K) (e : Entry) (handle : ℕ) (p : Object K)
      → Shown filters objects e
      → Shown filters ((handle, p) ∷ objects) e
  later filters objects e handle p (o, kept, match, same) = (o, inr kept, match, same)

  IsListing-sound :
      {filters : List Filter} {objects : Objects K} {entries : List Entry} (e : Entry)
      → IsListing K filters objects entries
      → IsEntry e entries
      → Shown filters objects e
  IsListing-sound e ended h = absurd h
  IsListing-sound e (shown handle o match rest) (inl same) = (o, inl refl, match, same)
  IsListing-sound {filters} e (shown handle o {objects} match rest) (inr h) =
      later filters objects e handle o (IsListing-sound e rest h)
  IsListing-sound {filters} e (hidden handle o {objects} other rest) h =
      later filters objects e handle o (IsListing-sound e rest h)

  IsListing-complete :
      {filters : List Filter} {objects : Objects K} {entries : List Entry} (o : Object K)
      → IsListing K filters objects entries
      → IsKept o objects
      → All (Matches K o.object_info) filters
      → IsEntry (shown_as o) entries
  IsListing-complete o ended kept match = absurd kept
  IsListing-complete o (shown handle p _ rest) (inl same) match = inl (ap shown_as same)
  IsListing-complete o (shown handle p _ rest) (inr kept) match =
      inr (IsListing-complete o rest kept match)
  IsListing-complete {filters} o (hidden handle p other rest) (inl same) match =
      absurd (other (subst (λ q. All (Matches K q.object_info) filters) (sym same) match))
  IsListing-complete o (hidden handle p other rest) (inr kept) match =
      IsListing-complete o rest kept match

  filters_of_ok :
      (filters : List Filter)
      → All IsWellFormed filters
      → filters_of K {E = ConnectorErrorKind} (Filters.serialize_all filters) ≡ ok filters
  unfolding filters_of
  filters_of_ok filters w = rw (
    filter_parse_all-serialize_all (length (Filters.serialize_all filters)) filters w (omega arith),
    filters_of,
  )

  -- The handler reads the filters that the client sends, whose payloads fit their fields, leaves
  -- the device as it is, and answers with the four bytes of each of a list of entries. They are
  -- those of the objects of the device which have what every filter names, in the order of the
  -- objects: an entry, of a number, a type and a sequence number, is in the list exactly if it is
  -- that of such an object.
  pub list_objects_lem :
      (filters : List Filter) (s : State K)
      → All IsWellFormed filters
      → (entries : List Entry) × (list_objects K (Filters.serialize_all filters) s ≡ (
        ok (record {
          code = ResponseCode.success CommandCode.list_objects;
          session_id = none;
          data_bytes = sent_as entries;
          mac = none;
        }),
        s,
      ))
        × IsListing K filters s.objects entries
        × ((e : Entry)
            → IsEntry e entries ↔ (
                (o : Object K) × IsKept o s.objects
                × All (Matches K o.object_info) filters
                × (shown_as o ≡ e)))
  unfolding list_objects success Response.success ◌>>=◌ get lift pure
  list_objects_lem filters s w =
      let listing = listed-IsListing filters s.objects in
      (
        listed K filters s.objects,
        rw (filters_of_ok filters w) (rw (entries_bytes_eq (listed K filters s.objects))),
        listing,
        λ e. (
          IsListing-sound e listing,
          λ q.
              subst (λ f. IsEntry f (listed K filters s.objects)) (q.3)
                (IsListing-complete q.0 listing q.1 q.2),
        ),
      )
