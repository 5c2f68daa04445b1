-- ===== src/InFlight/Tests.antt =====
-- src/in_flight.rs on two guards of one request.
use mcpg_plugin_backend_sql.Common.{◌≡◌, refl, List, [], ◌∷◌, none, Text, codes, text_eq}
use mcpg_plugin_backend_sql.Common.TextMaps.{lookup}
use mcpg_plugin_backend_sql.Params.{postgres}
use mcpg_plugin_backend_sql.InFlight.{mysql_connection_id}
use mcpg_plugin_backend_sql.InFlight.Guards.{
  GuardEvent, registers, drops, learns, apply_each, held, history, held-apply_each,
}

abbrev request : Text
request = codes "r1"

abbrev events : List GuardEvent
events =
    registers 0 0 request (codes "orders") postgres
    ∷ registers 1 1 request (codes "orders") postgres
    ∷ learns request (mysql_connection_id 7)
    ∷ drops request
    ∷ []

held-apply_each_example : held request (apply_each events []) ≡ history request events none
unfolding lookup
held-apply_each_example = held-apply_each request events []

-- The second guard lives, and its request is not in the registry.
second_guard_unlisted : history request events none ≡ none
unfolding text_eq
second_guard_unlisted = refl
