-- ===== src/Url/Version.antt =====
-- crates/openlv/src/url/mod.rs: a connection URL of any version, of which there is one.
use openlv_rs.Prelude.{◌≡◌, refl}
use openlv_rs.Text.{Text}
use openlv_rs.Errors.{OpenLvError, Result, ok, ◌>>=◌}
use openlv_rs.Encryption.Handshake.{HandshakeKey}
use openlv_rs.Encryption.Hash.{PublicKeyHash}
use openlv_rs.Url.{SignalingProtocol, Version1SessionUri, UrlLibs, UrlLaws}
use openlv_rs.Url as Url
use openlv_rs.Url.RoundTrip.{IsValidUri, from_url-to_url}

pub data SessionUri : Type 0 where
  version1 : Version1SessionUri → SessionUri

unfoldable pub new : Text → PublicKeyHash → HandshakeKey → SignalingProtocol → Text → SessionUri
new session_id key_hash shared_key signaling_protocol signaling_server = version1 (record {
  session_id = session_id;
  key_hash = key_hash;
  shared_key = shared_key;
  signaling_protocol = signaling_protocol;
  signaling_server = signaling_server;
})

module _ (u : UrlLibs) where
  unfoldable pub to_connection_url : SessionUri → Text
  to_connection_url (version1 uri) = Url.to_url u uri

  unfoldable pub from_url : Text → Result OpenLvError SessionUri
  from_url url = do v1 ← Url.from_url u url; ok (version1 v1)

  -- From a `&str` and from a `String`.
  try_from : Text → Result OpenLvError SessionUri
  unfolding from_url
  try_from value = from_url value

  version1_to_connection_url : Version1SessionUri → Text
  unfolding to_connection_url
  version1_to_connection_url uri = to_connection_url (version1 uri)

  -- `Display`, which the text of a URL comes from.
  unfoldable pub fmt : SessionUri → Text
  unfolding version1_to_connection_url
  fmt (version1 uri) = version1_to_connection_url uri

  -- Under the laws of the pattern and of the query encoding, the displayed text of a valid URL is
  -- read back to it.
  pub from_url-fmt :
      UrlLaws u
      → (uri : Version1SessionUri) → IsValidUri u uri
      → from_url (fmt (version1 uri)) ≡ ok (version1 uri)
  unfolding fmt from_url
  from_url-fmt laws uri valid = rw (from_url-to_url u laws uri valid) refl
