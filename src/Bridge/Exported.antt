-- ===== src/Bridge/Exported.antt =====
-- The exported functions of crates/openlv-ffi/src/lib.rs: a session with its table of requests. The
-- JSON of options and answers is a parameter; the runtime only runs the calls.
pub mod Inviting
pub mod Shutdown
mod Tests
use openlv_rs.Prelude.{ℕ, Bool, true, false, Option, none, some, if◌then◌else◌}
use openlv_rs.Text.{Text, text}
use openlv_rs.Errors.{OpenLvError, Result, ok, err, panic, ◌>>=◌, ◌>>◌, map_err}
use openlv_rs.Message.{PeerInfo}
use openlv_rs.Encryption.Handshake.{from_hex}
use openlv_rs.Url.{UrlLibs, protocol_from, protocol_to_string}
use openlv_rs.Url.Version.{SessionUri, version1, from_url}
use openlv_rs.Layer.State.{Platform}
use openlv_rs.Transport.Webrtc.{Rtc}
use openlv_rs.Session.{SessionPlatform}
use openlv_rs.Session.Start.{SessionConfig, Libs, Draw, Started, dapp, wallet, on_request}
use openlv_rs.Session.Running.{Running}
use openlv_rs.Session.Running as Running
use openlv_rs.Bridge.{BridgeError, failure, bridge_error_from, peer_info_try_from}
use openlv_rs.Bridge.Requests.{Requests, Next, stopped}
use openlv_rs.Control as Control
use openlv_rs.Bridge.Requests as Pending

pub record SessionOptions : Type 0 where
  pub session_id : Option Text
  pub protocol : Option Text
  pub server : Option Text
  pub handshake_key : Option Text
  pub peer_info : Option PeerInfo

-- `Session` of the bridge, as it is made, and while it runs.
pub record Created (V P D C K H : Type 0) : Type 0 where
  pub inner : Started V P D C K H
  pub requests : Requests

pub record Exported (V P D C : Type 0) : Type 0 where
  pub inner : Running V P D C
  pub requests : Requests

-- The members of the object that `parse_session_uri` writes.
pub record SessionUriJson : Type 0 where
  pub session_id : Text
  pub key_hash : Text
  pub handshake_key : Text
  pub protocol : Text
  pub server : Text

uri_json : SessionUri → SessionUriJson
uri_json (version1 uri) = record {
  session_id = uri.session_id;
  key_hash = uri.key_hash.hash;
  handshake_key = uri.shared_key.hex;
  protocol = protocol_to_string uri.signaling_protocol;
  server = uri.signaling_server;
}

-- `parse_json`
unfoldable pub parse_with : {A : Type 0} → (Text → Result Text A) → Text → Result BridgeError A
parse_with parse value = map_err (failure (text "other")) (parse value)

-- `transpose` of the peer's information.
unfoldable pub peer_of : Option PeerInfo → Result BridgeError (Option PeerInfo)
peer_of none = ok none
peer_of (some info) = peer_info_try_from info >>= λ peer. ok (some peer)

abbrev pub map_option : {A B : Type 0} → (A → B) → Option A → Option B
map_option f none = none
map_option f (some a) = some (f a)

-- A panic on the runtime is the error of its task; `panicked` is the text of that error.
unfoldable pub on_runtime : {A : Type 0} → Text → Result BridgeError A → Result BridgeError A
on_runtime panicked (ok a) = ok a
on_runtime panicked (err e) = err e
on_runtime panicked panic = err (failure (text "other") panicked)

module _ (display : OpenLvError → Text) where
  unfoldable pub lower : {A : Type 0} → Result OpenLvError A → Result BridgeError A
  lower r = map_err (bridge_error_from display) r

  unfoldable pub parse_session_uri : UrlLibs → Text → Result BridgeError SessionUriJson
  unfolding lower uri_json
  parse_session_uri u url = do uri ← lower (from_url u url); ok (uri_json uri)

  with_key : Option Text → SessionConfig → Result BridgeError SessionConfig
  unfolding lower
  with_key none config = ok config
  with_key (some key) config =
      lower (from_hex key) >>= λ k. ok (record config { handshake_key = some k })

  -- The configuration that `create_dapp` makes of its options.
  dapp_config : Libs → SessionOptions → Result BridgeError SessionConfig
  unfolding with_key
  dapp_config libs options = do
    peer ← peer_of options.peer_info
    config ← with_key options.handshake_key (record dapp {
      session_id = options.session_id;
      protocol = map_option (protocol_from libs.url) options.protocol;
      server = options.server;
    })
    ok (record config { info = peer })

  module _ {V P D C K H : Type 0} (panicked : Text) (libs : Libs) (draw : Draw) where
    -- `Session::create`
    create : SessionConfig → Result BridgeError (Created V P D C K H)
    unfolding lower
    create config = do
      inner ← lower (on_request libs draw config)
      ok (record { inner = inner; requests = Pending.new })

    unfoldable pub create_dapp :
        (Text → Result Text SessionOptions) → Text → Result BridgeError (Created V P D C K H)
    unfolding create dapp_config
    create_dapp parse options_json = on_runtime panicked (do
      options ← parse_with parse options_json
      config ← dapp_config libs options
      create config)

    unfoldable pub create_wallet :
        (Text → Result Text (Option PeerInfo))
        → Text
        → Text
        → Result BridgeError (Created V P D C K H)
    unfolding create
    create_wallet parse uri peer_info_json = on_runtime panicked (do
      info ← parse_with parse peer_info_json
      peer ← peer_of info
      create (record (wallet uri) { info = peer }))

  module _ {V P D S C : Type 0} (panicked : Text) (rtc : Rtc P D S C) (p : SessionPlatform V)
      (platform : Platform V) where
    -- The requests end first, then the session is closed.
    pub shutdown : Exported V P D C → Result BridgeError (Unit {0}) × Exported V P D C
    unfolding lower
    shutdown s =
        let (r, inner) = Running.close rtc p platform s.inner in
        (
          on_runtime panicked (lower r),
          record { inner = inner; requests = Pending.stop s.requests },
        )

    pub connect : Exported V P D C → Result BridgeError (Unit {0}) × Exported V P D C
    unfolding lower
    connect s =
        let (r, inner) = Running.connect platform s.inner in
        (on_runtime panicked (lower r), record s { inner = inner })

module _ {V P D C : Type 0} where
  unfoldable pub respond :
      ℕ → Text → Exported V P D C → Result BridgeError (Unit {0}) × Exported V P D C
  respond id response s =
      let (r, requests) = Pending.reply id (ok response) s.requests in
      (r, record s { requests = requests })

  unfoldable pub fail : ℕ → Exported V P D C → Result BridgeError (Unit {0}) × Exported V P D C
  fail id s =
      let (r, requests) = Pending.fail id s.requests in (r, record s { requests = requests })

  -- The closed session is looked at before the next request.
  unfoldable pub next_request : Exported V P D C → Next × Exported V P D C
  next_request s =
      if Control.is_shut_down s.inner.session.control
      then (stopped, s)
      else (let (found, requests) = Pending.next s.requests in
          (found, record s { requests = requests }))
