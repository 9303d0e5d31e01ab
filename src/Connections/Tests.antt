-- ===== src/Connections/Tests.antt =====
-- Streams at concrete inputs.
use silent_devops.Prelude.{◌≡◌, refl, true, false, List, [], ◌∷◌, ok}
use silent_devops.Identity.{AgentRow, new_agent}
use silent_devops.Connections.{
  ConnectionRow, new_connection, go_online, disconnect_row, go_offline, mark_all_offline, is_online,
}
use silent_devops.Connections.Streams.{offline_exact}

abbrev agents : List AgentRow
agents = new_agent "a1" "5" "" 9 0 ∷ []

abbrev rows : List ConnectionRow
rows = new_connection "a1" "a1-1" 1 ∷ new_connection "a2" "a2-1" 1 ∷ []

abbrev after : List AgentRow × List ConnectionRow
after = (
  new_agent "a1" "5" "host" 9 0 ∷ [],
  new_connection "a1" "a1-2" 2 ∷ new_connection "a2" "a2-1" 1 ∷ [],
)

none_online :
    mark_all_offline rows false 3_000_000
    ≡ ok (
        disconnect_row 3 (new_connection "a1" "a1-1" 1)
        ∷ disconnect_row 3 (new_connection "a2" "a2-1" 1)
        ∷ [])
unfolding mark_all_offline
none_online = refl

offline_exact_example :
    (is_online "a1" (go_offline after.1 false "a1" "a1-1" 3) ≡ true)
    × (is_online "a1" (go_offline after.1 false "a1" "a1-2" 3) ≡ false)
    × (is_online "a1" (go_offline after.1 true "a1" "a1-2" 3) ≡ true)
offline_exact_example =
    offline_exact agents rows false "a1" "a1-2" "host" "a1-1" 2_000_000 3 after
      (unfold go_online in refl) refl
