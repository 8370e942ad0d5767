-- ===== src/Mcp/Tests/Goroutines.antt =====
-- The listener and two senders of the bridge on the scripted server.
use mathlib.Core.List.{Memᴰ}
use mcpurl.Prelude.{◌+◌, ◌*◌, ◌≡◌, ◌≤◌, refl, true, false, [], ◌∷◌}
use mcpurl.Prelude.Bytes.{Bytes, codes}
use mcpurl.Prelude.Lists.{length}
use mcpurl.Mcp.Tests.{scripted, codec, bridge}
use mcpurl.Mcp.Bridge.{Bridge, send}
use mcpurl.Mcp.Threads.{
  start, posting, listening, streaming, Shared, System, turn, Reach, begin, later, advance,
  unless_locked,
}
use mcpurl.Mcp.Threads.Renewals.{IsSerial, Reach-IsSerial}
use mcpurl.Mcp.Threads.Progress.{work, steps, steps-le}
use mcpurl.Mcp.Threads.Unblocked.{Progresses, Reach-Progresses}
use mcpurl.Mcp.Bridge.Replies.{IsReply, Lined}
use mcpurl.Mcp.Threads.Written.{Reach-Lined}
use mcpurl.Mcp.Threads.Alone.{run_alone, run_alone-send}

abbrev hello : Bytes
hello = codes "{\"id\":3,\"method\":\"tools/list\"}"

abbrev other : Bytes
other = codes "{\"id\":4,\"method\":\"tools/list\"}"

abbrev live : Bridge scripted codec
live = record bridge { init_req = codes "{\"id\":1,\"method\":\"initialize\"}"; sessioned = true }

abbrev shared : Shared scripted codec
shared = record { bridge = live; locked = false; renewals = [] }

-- The listener has opened its stream, and the second sender has read the generation.
abbrev moved : System scripted codec
moved = record { shared = shared; threads = streaming 0 ∷ start hello ∷ posting other 0 ∷ [] }

abbrev reached : Reach scripted codec live false (hello ∷ other ∷ []) moved
unfolding advance unless_locked
reached =
    later
      (later begin
        (turn [] (start hello ∷ start other ∷ []) listening (streaming 0) shared refl refl refl))
      (turn (streaming 0 ∷ start hello ∷ []) [] (start other) (posting other 0) shared refl refl
        refl)

Reach-IsSerial_example : IsSerial scripted codec 0 moved
Reach-IsSerial_example = Reach-IsSerial scripted codec live false (hello ∷ other ∷ []) reached

steps-le_example :
    steps scripted codec reached + work moved.threads ≤ 8 * length (hello ∷ other ∷ [])
steps-le_example = steps-le scripted codec live false (hello ∷ other ∷ []) reached

Reach-Progresses_example : Progresses scripted codec moved
Reach-Progresses_example = Reach-Progresses scripted codec live false (hello ∷ other ∷ []) reached

run_alone-send_example :
    run_alone scripted codec 10 shared (start hello) ≡ send scripted codec hello live
run_alone-send_example = run_alone-send scripted codec hello live []

Reach-Lined_example :
    Lined scripted codec
      (IsReply scripted codec (λ m. Memᴰ m (hello ∷ other ∷ [])))
      moved.shared.bridge
Reach-Lined_example = Reach-Lined scripted codec live false (hello ∷ other ∷ []) tt reached
