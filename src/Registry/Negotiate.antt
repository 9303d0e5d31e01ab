-- ===== src/Registry/Negotiate.antt =====
-- The limits that `Acquire` negotiates with an agent, and the greeting that carries them.
use silent_devops.Prelude.{ℕ, ◌≤◌, ◌<◌, ◌≡◌, refl, ◌⊎◌, some, arith}
use silent_devops.Protocol.{Limits}
use silent_devops.Registry.{lower, negotiate}

-- What an agent may ask for with a limit of its own: any number but zero, which stands for no wish.
abbrev pub Respects : ℕ → ℕ → ℕ → Type 0
Respects offered server out =
    (out ≤ server)
    × (0 < offered → out ≤ offered)
    × (0 < server → 0 < out)
    × ((out ≡ server) ⊎ (out ≡ offered))

lower-Respects : (offered server : ℕ) → Respects offered server (lower offered server)
unfolding lower
lower-Respects offered server = grind arith

-- Negotiation with an agent that states its limits: each of the three limits that it may lower is at
-- most the server's, at most the agent's where the agent states one, one of those two, and not zero
-- where the server's is not; the other eleven limits are the server's.
pub negotiate_bounds :
    (server agent : Limits)
    → let out = negotiate server (some agent) in
      Respects agent.max_message_bytes server.max_message_bytes out.max_message_bytes
      × Respects agent.max_queue_depth server.max_queue_depth out.max_queue_depth
      × Respects agent.max_capabilities server.max_capabilities out.max_capabilities
      × (out ≡ record server {
        max_message_bytes = out.max_message_bytes;
        max_queue_depth = out.max_queue_depth;
        max_capabilities = out.max_capabilities;
      })
unfolding negotiate
negotiate_bounds server agent = (
  lower-Respects agent.max_message_bytes server.max_message_bytes,
  lower-Respects agent.max_queue_depth server.max_queue_depth,
  lower-Respects agent.max_capabilities server.max_capabilities,
  refl,
)
