-- ===== src/Identity/Store.antt =====
-- identity/store.py: the digest pins, one SQLite table. A fault of the file is an argument; then the
-- functions raise.
pub mod Pins
use ai_agent_security_firewa.Prelude.{String, Bool, true, false, Option, none, some, List, map}
use ai_agent_security_firewa.Prelude.Dict.{
  Dict, get, get_default, remove, has_key, insert_or_ignore,
}

-- For each service its digest and when it was pinned.
abbrev pub Pins : Type 0
Pins = Dict (String × String)

read_digest : Pins → Option (String × String) → Option (Pins × String)
read_digest pins none = none
read_digest pins (some row) = some (pins, row.0)

-- The table after the call, and the pinned digest.
unfoldable pub get_or_set : String → String → String → Pins → Bool → Option (Pins × String)
unfolding read_digest
get_or_set service observed_digest pinned_at pins true = none
get_or_set service observed_digest pinned_at pins false =
    let pins' = insert_or_ignore pins service (observed_digest, pinned_at) in
    read_digest pins' (get pins' service)

unfoldable pub clear : String → Pins → Pins × Bool
clear service pins = (remove pins service, has_key pins service)

unfoldable pub list_all : Pins → Dict String
list_all pins = map (λ (service, row). (service, row.0)) pins
