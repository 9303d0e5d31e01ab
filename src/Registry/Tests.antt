-- ===== src/Registry/Tests.antt =====
-- Runs of the registry, and the theorems about it at concrete inputs. Messages are numbers.
use silent_devops.Prelude.{ℕ, ◌≡◌, refl, true, false, none, some, List, [], ◌∷◌, ok, err}
use silent_devops.Prelude.Dict.{lookup, remove, insert}
use silent_devops.Protocol.{default_limits, Hello}
use silent_devops.Registry.{
  duplicate_stream, Entry, Session, Registry, new, admit, connection_state, acquire, heartbeat,
  release_entry, close_queue, release_session, release, disconnect,
}
use silent_devops.Registry.Invariant.{Inv, new-Inv}
use silent_devops.Registry.Preserve.{admit-Inv}
use silent_devops.Registry.Release.{closed_session, released}
use silent_devops.Registry.Dispatch.{
  sent, panicked, enqueue, find_session, dispatch, Delivers, dispatch-Delivers,
}
use silent_devops.Registry.Hazards.{disconnect_then_release, release_during_dispatch}
use silent_devops.Registry.Lifecycle.{
  Event, acquires, beats, releases, expires, after, apply, run, run-Inv,
}
use silent_devops.Registry.Backoff.{Backoff}
use silent_devops.Registry.Keeps.{calls_of, calls-KeepsSessions}

abbrev greeting : Hello
greeting = record {
  agent_id = "web-1";
  protocol = some (record { minimum = 1; maximum = 2 });
  capabilities = ("exec", 1) ∷ [];
  hostname = "web";
  boot_id = "b";
  limits = some (record default_limits { max_queue_depth = 2 });
}

abbrev empty : Registry ℕ
empty = new 1 none 30

empty-Inv : Inv empty
empty-Inv = new-Inv 1 none 30

-- web-1 has come in at 5, with its session at address 0.
abbrev joined : Registry ℕ
joined = admit empty "web-1" greeting 5

joined-Inv : Inv joined
joined-Inv = admit-Inv empty "web-1" greeting 5 empty-Inv

joined_by_acquire :
    acquire empty "web-1" "web-1" (some greeting) 5
    ≡ ok (0, connection_state empty greeting, joined)
unfolding acquire admit new lookup
joined_by_acquire = refl

second_stream_refused : acquire joined "web-1" "web-1" (some greeting) 6 ≡ err duplicate_stream
unfolding acquire admit new lookup insert remove
second_stream_refused = refl

abbrev joined_entry : Entry
joined_entry = record {
  generation = 1;
  online = true;
  last_seen = 5;
  hello = greeting;
  session = some 0;
}

joined_lookup : lookup joined.entries "web-1" ≡ some joined_entry
unfolding admit new lookup insert remove
joined_lookup = refl

abbrev session_0 : Session ℕ
session_0 = record {
  agent_id = "web-1";
  generation = 1;
  capacity = 256;
  queue = [];
  closed = false;
  once = false;
}

joined_session : joined.sessions 0 ≡ some session_0
unfolding admit new
joined_session = refl

-- The agent went and came back: address 0 is stale.
abbrev rejoined : Registry ℕ
rejoined = admit (released joined 0 session_0 6) "web-1" greeting 7

abbrev history : List Event
history =
    acquires "web-1" "web-1" (some greeting) 5
    ∷ beats 0 8
    ∷ expires 50
    ∷ acquires "web-1" "web-1" (some greeting) 51
    ∷ releases 0 52
    ∷ releases 0 53
    ∷ []

run-Inv_example : (r' : Registry ℕ) × (run empty history ≡ some r') × Inv r'
run-Inv_example = run-Inv empty history (refl, (refl, (refl, (refl, (refl, (refl, tt)))))) empty-Inv

-- A heartbeat and another agent's stream come in between the lookup and the send.
abbrev busy : List Event
busy = beats 0 6 ∷ acquires "web-2" "web-2" (some greeting) 6 ∷ []

abbrev beating : Registry ℕ → Registry ℕ
beating = calls_of busy

dispatch-Delivers_example :
    Delivers joined (beating joined) "web-1" false 7 (dispatch beating joined "web-1" false 7)
dispatch-Delivers_example =
    dispatch-Delivers joined beating "web-1" false 7 joined-Inv
      (calls-KeepsSessions joined busy (refl, (refl, tt)) joined-Inv)

dispatched_meanwhile : (dispatch beating joined "web-1" false 7).0 ≡ sent
unfolding dispatch enqueue find_session run apply after acquire heartbeat admit new lookup insert
    remove
dispatched_meanwhile = refl

released_meanwhile : (dispatch (calls_of (releases 0 6 ∷ [])) joined "web-1" false 7).0 ≡ panicked
unfolding dispatch enqueue find_session run apply release release_session close_queue admit new
    lookup insert remove release_entry
released_meanwhile = refl

disconnect_then_release_example :
    (p : ℕ) × (r' : Registry ℕ) × (joined_entry.session ≡ some p)
    × (disconnect joined "web-1" 9 ≡ some r')
    × (release r' p 10 ≡ none)
disconnect_then_release_example =
    disconnect_then_release joined "web-1" joined_entry 9 10 joined-Inv joined_lookup refl

released_by_release : release joined 0 6 ≡ some (released joined 0 session_0 6)
unfolding release release_session close_queue admit new lookup insert remove released release_entry
    closed_session
released_by_release = refl

release_during_dispatch_example :
    (r' : Registry ℕ) × (release joined 0 6 ≡ some r') × ((enqueue r' 0 false 7).0 ≡ panicked)
unfolding find_session admit new lookup insert remove
release_during_dispatch_example = release_during_dispatch joined "web-1" 0 6 7 joined-Inv refl

abbrev waiting : Backoff
waiting = record { min = 1000; max = 8000; current = 4000 }
