-- ===== src/Web/Process/Stop.antt =====
-- web_gui.go: two requests to stop the agent.
use ship_grip_fim.Base.{true, false, ◌≡◌, refl, some}
use ship_grip_fim.Web.{WebState, stop_sent, panicked}
use ship_grip_fim.Web.Handlers.{web_agent_stop, close_stop}

-- While the agent runs and its channel is open, a request to stop it closes the channel; a second
-- one, before the agent's goroutine has ended, closes it again, which panics.
pub second_stop_panics :
    (s : WebState)
    → s.agent_running ≡ true
    → s.agent_stop ≡ some false
    → ((web_agent_stop s).0 ≡ stop_sent) × ((web_agent_stop (web_agent_stop s).1).0 ≡ panicked)
unfolding web_agent_stop close_stop
second_stop_panics s r e = (rw (r, e) refl, rw (r, e) refl)
