-- ===== src/Identity/AdminCli/Listing.antt =====
-- identity/admin_cli.py: list-pins shows every pin once, by service, and changes none.
use ai_agent_security_firewa.Prelude.{String, ◌≡◌, ◌↔◌, refl, List, [], ◌∷◌, In, map}
use ai_agent_security_firewa.Prelude.Sorting.{sorted, IsSorted, In-sorted, sorted-IsSorted}
use ai_agent_security_firewa.Identity.Store.{Pins, list_all}
use ai_agent_security_firewa.Identity.AdminCli.{pin_line, run_main}

-- list-pins exits with 0, leaves the pins as they are and prints one line for each of a list of items
-- that is sorted by service and holds exactly the pins.
pub run_main-list_pins :
    (pins : Pins)
    → (items : List (String × String)) × (run_main ("list-pins" ∷ []) pins ≡ record {
      exit_code = 0;
      pins = pins;
      output = map (λ (service, digest). pin_line service digest) items;
    })
      × IsSorted items
      × ((a : String × String) → In a items ↔ In a (list_all pins))
unfolding run_main
run_main-list_pins pins =
    (sorted (list_all pins), refl, sorted-IsSorted (list_all pins), In-sorted (list_all pins))
