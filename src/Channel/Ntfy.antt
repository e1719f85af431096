-- ===== src/Channel/Ntfy.antt =====
-- crates/openlv/src/signaling/ntfy. The regular expression, the HTTP client and the WebSocket are
-- other code: records of functions. The task that reads the WebSocket is in Reading.
pub mod Secure
pub mod Reading
use openlv_rs.Prelude.{
  ◌∷◌, ◌++◌, Bool, true, false, Option, none, some, is_empty, if◌then◌else◌, ◌==◌, ◌||◌,
}
use openlv_rs.Text.{Bytes, Text, text, bytes_eq, starts_with}
use openlv_rs.Errors.{OpenLvError, signaling, Result, ok, err, panic, ◌>>=◌, ◌>>◌, guard, map_err}
use openlv_rs.Stateful as Stateful

pub data NtfyCredentials : Type 0 where
  user_password : Text → Text → NtfyCredentials
  token : Text → NtfyCredentials

pub record NtfyConnectionInfo : Type 0 where
  pub host : Text
  pub protocol : Text
  pub ws_protocol : Text
  pub credentials : Option NtfyCredentials
  pub parameters : Option Text

-- The named groups of the pattern; a group that took no part is `none`.
pub record NtfyCaptures : Type 0 where
  pub protocol : Option Text
  pub user : Option Text
  pub password : Option Text
  pub host : Option Text
  pub parameters : Option Text

invalid_url : Text → OpenLvError
invalid_url url = signaling (text "invalid NTFY URL: " ++ url)

named : {A : Type 0} → Text → Option A → Result OpenLvError A
unfolding invalid_url
named url none = err (invalid_url url)
named url (some value) = ok value

-- The scheme of the HTTP requests and that of the WebSocket.
unfoldable pub schemes_of : Text → Text → Result OpenLvError (Text × Text)
unfolding invalid_url
schemes_of url protocol_type =
    if bytes_eq protocol_type (text "http") || bytes_eq protocol_type (text "ntfy")
    then ok (text "http", text "ws")
    else if bytes_eq protocol_type (text "https") || bytes_eq protocol_type (text "ntfys")
    then ok (text "https", text "wss")
    else err (invalid_url url)

unfoldable pub query_of : Option Text → Option Text
query_of none = none
query_of (some raw) =
    if is_empty raw
    then none
    else if starts_with (text "?") raw
    then some raw
    else some (b'?' ∷ raw)

unfoldable pub credentials_of : Option Text → Option Text → Option NtfyCredentials
credentials_of (some user) (some password) = some (user_password user password)
credentials_of none (some password) = some (token password)
credentials_of user none = none

unfoldable pub parse_ntfy_url :
    (Text → Option NtfyCaptures) → Text → Result OpenLvError NtfyConnectionInfo
unfolding named schemes_of query_of credentials_of
parse_ntfy_url captures_of url = do
  captures ← named url (captures_of url)
  protocol_type ← named url captures.protocol
  schemes ← schemes_of url protocol_type
  host ← named url captures.host
  ok (record {
    host = host;
    protocol = schemes.0;
    ws_protocol = schemes.1;
    credentials = credentials_of captures.user captures.password;
    parameters = query_of captures.parameters;
  })

unfoldable pub authorization : (Bytes → Text) → NtfyCredentials → Text
authorization base64 (user_password user password) =
    text "Basic " ++ base64 (user ++ b':' ∷ password)
authorization base64 (token secret) = text "Bearer " ++ secret

-- `shutdown_tx` and `http_client` are there or not.
pub record NtfyChannel (H : Type 0) : Type 0 where
  pub topic : Text
  pub connection_info : NtfyConnectionInfo
  pub handler : Option H
  pub shutdown_tx : Bool
  pub http_client : Bool

-- How the wait for the open event ends.
pub data Opening : Type 0 where
  opened sender_dropped timed_out : Opening

-- The outside during one call: the request of a URL, a header value, the WebSocket connection
-- (URL, authorization), the wait, and a posted body (URL, authorization, body).
pub record NtfyNetwork : Type 0 where
  pub base64 : Bytes → Text
  pub into_client_request : Text → Result Text (Unit {0})
  pub header_value : Text → Result Text (Unit {0})
  pub connect_async : Text → Option Text → Result Text (Unit {0})
  pub opening : Opening
  pub post : Text → Option Text → Text → Result Text (Unit {0})

abbrev pub or_empty : Option Text → Text
or_empty none = text ""
or_empty (some t) = t

abbrev pub authorization_of : NtfyNetwork → Option NtfyCredentials → Option Text
authorization_of net none = none
authorization_of net (some c) = some (authorization net.base64 c)

header_of : NtfyNetwork → Option Text → Result Text (Unit {0})
header_of net none = ok tt
header_of net (some value) = net.header_value value

unfoldable pub confirm_open : Opening → Result OpenLvError (Unit {0})
confirm_open opened = ok tt
confirm_open sender_dropped = err (signaling (text "ntfy ready sender dropped"))
confirm_open timed_out = err (signaling (text "ntfy server did not confirm open within 10s"))

module _ {H : Type 0} where
  unfoldable pub new :
      (Text → Option NtfyCaptures) → Text → Text → Result OpenLvError (NtfyChannel H)
  new captures_of topic url = do
    info ← parse_ntfy_url captures_of url
    ok (record {
      topic = topic;
      connection_info = info;
      handler = none;
      shutdown_tx = false;
      http_client = false;
    })

  unfoldable pub ws_url : NtfyChannel H → Text
  ws_url c =
      c.connection_info.ws_protocol
      ++ (text "://"
          ++ (c.connection_info.host
              ++ (text "/" ++ (c.topic ++ (text "/ws" ++ or_empty c.connection_info.parameters)))))

  unfoldable pub publish_url : NtfyChannel H → Text
  publish_url c =
      c.connection_info.protocol
      ++ (text "://" ++ (c.connection_info.host ++ (text "/" ++ c.topic)))

  pub open_socket : NtfyNetwork → NtfyChannel H → Result OpenLvError (Unit {0})
  unfolding header_of
  open_socket net c = do
    let auth = authorization_of net c.connection_info.credentials
    map_err signaling (net.into_client_request (ws_url c))
    map_err signaling (header_of net auth)
    map_err signaling (net.connect_async (ws_url c) auth)

  -- The shutdown sender is stored before the wait, the HTTP client after it.
  unfoldable pub setup : NtfyNetwork → Stateful.M (NtfyChannel H) (Unit {0})
  unfolding open_socket confirm_open
  setup net c =
      Stateful.continue_with (open_socket net c, c)
        λ done c.
          Stateful.continue_with (confirm_open net.opening, record c { shutdown_tx = true })
            λ done c. (ok tt, record c { http_client = true })

  -- The send to the reading task may fail; its result is not used.
  unfoldable pub teardown : Stateful.M (NtfyChannel H) (Unit {0})
  teardown c = (ok tt, record c { shutdown_tx = false; http_client = false })

  unfoldable pub publish : NtfyNetwork → Text → NtfyChannel H → Result OpenLvError (Unit {0})
  publish net payload c =
      if c.http_client
      then map_err signaling
          (net.post (publish_url c) (authorization_of net c.connection_info.credentials) payload)
      else err (signaling (text "ntfy client not initialized"))

  unfoldable pub subscribe : H → Stateful.M (NtfyChannel H) (Unit {0})
  subscribe handler c = (ok tt, record c { handler = some handler })
