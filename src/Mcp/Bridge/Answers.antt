-- ===== src/Mcp/Bridge/Answers.antt =====
-- pkg/mcp/bridge.go: what `send` answers.
use mcpurl.Prelude.{
  ◌≡◌, ◌&&◌, List, [], ◌∷◌, ◌++◌, map, Option, none, some, ◌==◌, Bool, true, false, if◌then◌else◌,
}
use mcpurl.Prelude.Bytes.{Bytes}
use mcpurl.Mcp.Client.{Peer, Failure}
use mcpurl.Mcp.Transport.{W, post}
use mcpurl.Mcp.Bridge.{
  Codec, Output, message, error_reply, Reinit, renewed, is_request, write_out, post_to, reinit,
  status_of,
}
use mcpurl.Mcp.Bridge.Renewal.{B}

module _ (peer : Peer) (codec : Codec) where
  -- The reply to a message whose POST failed: to a request, and to nothing else.
  abbrev pub reply : Bytes → Option Failure → List Output
  reply msg none = []
  reply msg (some f) =
      let m = codec.decode msg in if m.valid && is_request m then error_reply m.id f ∷ [] else []

  -- The bridge behind the first POST of the message, and what its `reinit` gives.
  abbrev first : Bytes → B peer codec → B peer codec
  first msg b = (post_to peer codec msg (write_out peer codec) b).1

  abbrev pub renewal : Bytes → B peer codec → Reinit × B peer codec
  renewal msg b = reinit peer codec b.gen (first msg b)

  -- One POST of the message, and a second one where there is a world for it: all that the server
  -- delivers in reply, how the last one ends, and the world it leaves.
  abbrev pub heard : Bytes → W peer → Option (W peer) → List Bytes
  heard msg w none = (post peer msg w).0.1
  heard msg w (some v) = (post peer msg w).0.1 ++ (post peer msg v).0.1

  abbrev pub outcome : Bytes → W peer → Option (W peer) → Option Failure
  outcome msg w none = (post peer msg w).0.0
  outcome msg w (some v) = (post peer msg v).0.0

  abbrev pub left : Bytes → W peer → Option (W peer) → W peer
  left msg w none = (post peer msg w).1
  left msg w (some v) = (post peer msg v).1

  -- Whether a failure is a 404 in a session.
  abbrev pub expires : B peer codec → Option Failure → Bool
  expires b none = false
  expires b (some f) = status_of f == 404 && b.sessioned

  abbrev pub is_renewed : Reinit → Bool
  is_renewed renewed = true
  is_renewed r = false

  -- The message is sent a second time exactly where the first POST fails by a 404 in a session and
  -- the session can be renewed, in the world that the renewal leaves.
  abbrev pub Replays : Bytes → B peer codec → Option (W peer) → Type 0
  Replays msg b none =
      (expires (first msg b) (post peer msg b.world).0.0 && is_renewed (renewal msg b).0) ≡ false
  Replays msg b (some v) =
      (expires (first msg b) (post peer msg b.world).0.0 ≡ true)
      × (is_renewed (renewal msg b).0 ≡ true)
      × (v ≡ (renewal msg b).1.world)

  -- What `send` adds to stdout: all that the server delivers to one or two POSTs of the message, in
  -- order, and behind it the reply for the failure of the last one. Without a failure nothing follows
  -- that POST on the wire.
  pub record Answers (msg : Bytes) (b c : B peer codec) : Type 0 where
    pub again : Option (W peer)
    pub replays : Replays msg b again
    pub out_is :
        c.out
        ≡ b.out ++ (map message (heard msg b.world again) ++ reply msg (outcome msg b.world again))
    pub silent : outcome msg b.world again ≡ none → c.world ≡ left msg b.world again
