-- ===== src/Mcp/Bridge/Replies.antt =====
-- pkg/mcp/bridge.go: what a line of stdout may be.
use mcpurl.Prelude.{◌≡◌, refl, true, Option, none, some}
use mcpurl.Prelude.Bytes.{Bytes}
use mcpurl.Prelude.Lists.{All}
use mcpurl.Mcp.Client.{Peer, Failure}
use mcpurl.Mcp.Transport.{W, post}
use mcpurl.Mcp.Transport.Framing.{IsMessage}
use mcpurl.Mcp.Bridge.{Codec, Output, message, error_reply, is_request, Bridge, post_to}

module _ (peer : Peer) (codec : Codec) where
  abbrev B : Type 0
  B = Bridge peer codec

  -- A POST of the message fails so in some state of the world.
  abbrev pub Failed : Bytes → Failure → Type 0
  Failed msg f = (w : W peer) × ((post peer msg w).0.0 ≡ some f)

  abbrev pub FailedIf : Bytes → Option Failure → Type 0
  FailedIf msg none = Unit {0}
  FailedIf msg (some f) = Failed msg f

  -- The id of a request among some messages, and how a POST of it fails.
  pub record IsReply (Asked : Bytes → Type 0) (id : Bytes) (f : Failure) : Type 0 where
    pub msg : Bytes
    pub asked : Asked msg
    pub valid : (codec.decode msg).valid ≡ true
    pub asks : is_request (codec.decode msg) ≡ true
    pub same_id : id ≡ (codec.decode msg).id
    pub failed : Failed msg f

  -- A line that is written is one line of JSON, or a reply with what is to hold of replies.
  abbrev pub IsLine : (Bytes → Failure → Type 0) → Output → Type 0
  IsLine Told (message m) = IsMessage m
  IsLine Told (error_reply id f) = Told id f

  abbrev pub Lined : (Bytes → Failure → Type 0) → B → Type 0
  Lined Told b = All (IsLine Told) b.out

  failed_if :
      (msg : Bytes) (w : W peer) (f : Option Failure) → (post peer msg w).0.0 ≡ f → FailedIf msg f
  failed_if msg w none e = tt
  failed_if msg w (some f) e = (w, e)

  -- What a POST of a message returns is how it has failed.
  pub post_to-FailedIf :
      (msg : Bytes) (deliver : Bytes → B → B) (b : B)
      → FailedIf msg (post_to peer codec msg deliver b).0
  unfolding post_to
  post_to-FailedIf msg deliver b = failed_if msg b.world (post peer msg b.world).0.0 refl
