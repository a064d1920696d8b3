-- ===== src/MockHsm/Tests/Listings.antt =====
-- A listing of the simulated device's objects (src/mockhsm/command.rs).
use yubihsm_rs.Base.{All, none, ◌≡◌, ◌↔◌, List, [], ◌∷◌, ok}
use yubihsm_rs.Command.Code.{CommandCode}
use yubihsm_rs.Object.Filter as Filters
use yubihsm_rs.Object.Filter.{Filter}
use yubihsm_rs.Object.Info.{Entry}
use yubihsm_rs.Object.Types.{ObjectType}
use yubihsm_rs.MockHsm.Listing.{list_objects}
use yubihsm_rs.MockHsm.Listing.Passing.{Matches}
use yubihsm_rs.Response.Code.{ResponseCode}
use yubihsm_rs.MockHsm.Listing.Members.{
  IsEntry, IsKept, IsListing, sent_as, shown_as, list_objects_lem,
}
use yubihsm_rs.MockHsm.Objects.{Object}
use yubihsm_rs.MockHsm.State as State
use yubihsm_rs.MockHsm.State.{State}
use yubihsm_rs.MockHsm.Tests.{keys, both_objects}

abbrev hmac_keys : List Filter
hmac_keys = Filter.object_type ObjectType.hmac_key ∷ []

abbrev with_both : State keys
with_both = record (State.new keys) { objects = both_objects }

list_objects_lem_example :
    (entries : List Entry) × (list_objects keys (Filters.serialize_all hmac_keys) with_both ≡ (
      ok (record {
        code = ResponseCode.success CommandCode.list_objects;
        session_id = none;
        data_bytes = sent_as entries;
        mac = none;
      }),
      with_both,
    ))
    × IsListing keys hmac_keys with_both.objects entries
    × ((e : Entry)
        → IsEntry e entries ↔ (
            (o : Object keys) × IsKept o with_both.objects
            × All (Matches keys o.object_info) hmac_keys
            × (shown_as o ≡ e)))
list_objects_lem_example = list_objects_lem keys hmac_keys with_both (tt, tt)
