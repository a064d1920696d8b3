-- ===== src/MockHsm/Listing.antt =====
-- Listing of objects (`list_objects` of src/mockhsm/command.rs).
pub mod Passing
pub mod Members
use yubihsm_rs.Base.{
  ℕ, List, [], ◌∷◌, length, Result, ok, err, panic, Option, none, some, Bool, true, false, ◌&&◌,
  ◌==◌, if◌then◌else◌, bytes_eq, expect, unwrap, map,
}
use yubihsm_rs.Base.Actions.{Action}
use yubihsm_rs.Base.Programs.{pure, get, lift, ◌>>=◌, ◌>>◌}
use yubihsm_rs.Algorithm.Any as Algorithms
use yubihsm_rs.Command.Code.{CommandCode}
use yubihsm_rs.Object.Filter as Filters
use yubihsm_rs.Object.Filter.{Filter, FilterErrorKind}
use yubihsm_rs.Object.Info.{Info, Entry}
use yubihsm_rs.Object.Label as Label
use yubihsm_rs.Object.Types
use yubihsm_rs.Response.Message.{ResponseMessage}
use yubihsm_rs.MockHsm.Keys.{Keys}
use yubihsm_rs.MockHsm.Maps.{Map}
use yubihsm_rs.MockHsm.Objects.{Object, Objects, entry_of}
use yubihsm_rs.MockHsm.Requests.{success, entries_bytes}
use yubihsm_rs.MockHsm.State.{State, Hsm}

module _ (K : Keys) where
  -- Whether a filter lets an object pass. Values of enumerations are compared by their bytes,
  -- which differ.
  unfoldable pub passes : Info → Filter → Bool
  unfolding Label.label_eq
  passes info (Filter.algorithm alg) = Algorithms.to_u8 info.algorithm == Algorithms.to_u8 alg
  passes info (Filter.capabilities caps) = K.contains info.capabilities caps
  passes info (Filter.domains doms) = K.contains info.domains doms
  passes info (Filter.label label) = Label.label_eq info.label label
  passes info (Filter.id id) = info.object_id == id
  passes info (Filter.object_type ty) = Types.to_u8 info.object_type == Types.to_u8 ty

  -- `filters.iter().all(..)`; it is true of no filters.
  unfoldable pub passes_all : Info → List Filter → Bool
  passes_all info [] = true
  passes_all info (filter ∷ filters) = passes info filter && passes_all info filters

  -- The entries of the objects that pass, in the order of their handles.
  unfoldable pub listed : List Filter → Objects K → List Entry
  unfolding passes_all entry_of
  listed filters [] = []
  listed filters ((handle, object) ∷ objects) =
      let rest = listed filters objects in
      if passes_all object.object_info filters then entry_of object ∷ rest else rest

  -- `Filter::deserialize(..).unwrap()` up to the end of the data, with a fuel that does.
  unfoldable pub filters_of : {E : Type 0} → List ℕ → Result E (List Filter)
  filters_of bytes = elim (Filters.parse_all (length bytes) bytes) [
    | none ↦ panic
    | some r ↦ unwrap r
  ]

  unfoldable pub list_objects : List ℕ → Hsm K ResponseMessage
  list_objects cmd_data = do
    filters ← lift (filters_of cmd_data)
    s ← get
    success CommandCode.list_objects (entries_bytes (listed filters s.objects))
