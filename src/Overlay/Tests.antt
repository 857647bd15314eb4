-- ===== src/Overlay/Tests.antt =====
-- Runs of internal/overlay.
use oad.Base.{ℕ, ◌≡◌, refl, ◌==◌, true, false, Option, none, some, [], ◌∷◌, arith, ok, err}
use oad.Errors.{ApiError, validation_failed, conflict, not_found}
use oad.Scim.Text.{Text, text}
use oad.Scim.Json.{Json, null, str, obj, end, field}
use oad.Auth.{Identity}
use oad.Config.Numbers.{pos}
use oad.Entity.Store.{Environment}
use oad.Table.{Table, find_by_id}
use oad.Overlay.{PropertyOverlay, Catalog}
use oad.Overlay.Service.{overlay_id, create_overlay, change_overlay, remove_overlay, list_overlays}
use oad.Overlay.Managed.{IsManaged, Curated, Curated-IsManaged, overlay-isolated}

abbrev catalog : Catalog
catalog = record {
  systems =
      record { id = 5; name = some (text "credit"); active = none }
      ∷ record { id = 6; name = some (text "risk"); active = some true }
      ∷ [];
  entities =
      record {
        id = 7;
        type_id = 1;
        type = [];
        external_id = [];
        properties = obj end;
        system_id = none;
      }
      ∷ [];
  schemas =
      record { id = 1; system_id = 5; entity_type_id = 1; allowed_overlay_properties = obj end }
      ∷ record { id = 2; system_id = 6; entity_type_id = 1; allowed_overlay_properties = obj end }
      ∷ [];
}

abbrev open_environment : Environment
open_environment = record {
  pool_sees = λ s. true;
  scope_sees = λ s t. true;
  reads_fail = false;
  writes_fail = false;
  audit_fails = false;
  commit_fails = false;
}

abbrev caller_of : ℕ → Identity
caller_of s = record {
  subject = text "app";
  provider = [];
  entity_id = 0;
  groups = [];
  allowed_systems = s ∷ [];
  is_platform_admin = false;
  is_system_admin = false;
  active_system_id = some s;
  auth_mode = [];
}

abbrev no_print : ℕ → Text
no_print n = []

abbrev any_schema : Json → Json → Option ApiError
any_schema props schema = none

abbrev limit_of : Text → Json
limit_of key = obj (field key (str (text "9")) end)

abbrev empty_table : Table PropertyOverlay
empty_table = record { rows = []; changes = []; next_id = 1 }

abbrev first_table : Table PropertyOverlay
first_table =
    (create_overlay no_print (λ s. true) any_schema open_environment (caller_of 5) catalog 7
      (some (limit_of (text "credit.limit"))) empty_table).1

abbrev first_overlay : PropertyOverlay
first_overlay = record {
  id = 1;
  entity_id = 7;
  system_id = 5;
  properties = limit_of (text "credit.limit");
}

first-stored : find_by_id overlay_id 1 first_table.rows ≡ some first_overlay
unfolding create_overlay
first-stored = refl

-- The key of another system, a second overlay, and the overlay of another system.
overlays-refused :
    ((create_overlay no_print
        (λ s. true)
        any_schema
        open_environment
        (caller_of 5)
        catalog
        7
        (some (limit_of (text "risk.limit")))
        empty_table).0
      ≡ err validation_failed)
    × ((create_overlay no_print
          (λ s. true)
          any_schema
          open_environment
          (caller_of 5)
          catalog
          7
          (some (limit_of (text "credit.x")))
          first_table).0
        ≡ err conflict)
    × ((change_overlay no_print
          (λ s. true)
          any_schema
          open_environment
          (caller_of 6)
          catalog
          7
          1
          (some (limit_of (text "risk.limit")))
          first_table).0
        ≡ err not_found)
unfolding create_overlay change_overlay
overlays-refused = (refl, refl, refl)

Curated-IsManaged_example :
    IsManaged catalog
      (change_overlay no_print
        (λ s. true)
        any_schema
        open_environment
        (caller_of 5)
        catalog
        7
        1
        (some null)
        first_table).1.rows
Curated-IsManaged_example =
    Curated-IsManaged no_print (λ s. true) any_schema catalog empty_table _ (tt, tt)
      (Curated.by_update open_environment (caller_of 5) 7 1 (some null) (
        Curated.by_create open_environment (caller_of 5) 7 (some (limit_of (text "credit.limit")))
          Curated.unchanged))

other_systems : (s : ℕ) → some 6 ≡ some s → (5 == s) ≡ false
other_systems s h = ground arith

overlay-isolated_example :
    (find_by_id overlay_id 1
        (create_overlay no_print
          (λ s. true)
          any_schema
          open_environment
          (caller_of 6)
          catalog
          7
          (some null)
          first_table).1.rows
      ≡ some first_overlay)
    × (find_by_id overlay_id 1
          (change_overlay no_print
            (λ s. true)
            any_schema
            open_environment
            (caller_of 6)
            catalog
            7
            1
            (some null)
            first_table).1.rows
        ≡ some first_overlay)
    × (find_by_id overlay_id 1
          (remove_overlay no_print open_environment (caller_of 6) catalog 7 1 first_table).1.rows
        ≡ some first_overlay)
overlay-isolated_example =
    overlay-isolated no_print (λ s. true) any_schema catalog open_environment (caller_of 6) 1
      first_overlay other_systems 7 1 (some null) first_table first-stored

abbrev overlay_at : ℕ → ℕ → PropertyOverlay
overlay_at id system = record { id = id; entity_id = 7; system_id = system; properties = null }

-- The list of a caller whose system comes third among those with an overlay is empty.
third-missing :
    list_overlays open_environment (caller_of 6) catalog 7 (pos 25) 0 (record {
      rows = overlay_at 1 6 ∷ overlay_at 2 5 ∷ overlay_at 3 4 ∷ [];
      changes = [];
      next_id = 4;
    })
    ≡ ok ([], 0)
unfolding list_overlays
third-missing = refl
