-- ===== src/Url/Tests.antt =====
-- Runs of the connection URL.
use openlv_rs.Prelude.{◌≡◌, refl, arith}
use openlv_rs.Text.{text}
use openlv_rs.Text.Hex.{to_hex, hex_digit}
use openlv_rs.Errors.{ok}
use openlv_rs.Sample.{repeat}
use openlv_rs.Encryption.Handshake.{generate}
use openlv_rs.Encryption.Handshake.KeyText.{generate_lem}
use openlv_rs.Url.{
  Version1SessionUri, ntfy, IsSessionId, is_url_safe, generate_session_id, from_url, to_url,
}
use openlv_rs.Url.Ids.{generate_session_id-IsSessionId}
use openlv_rs.Url.RoundTrip.{IsValidUri, from_url-to_url}
use openlv_rs.Url.Sample.{url_libs, url_laws}

abbrev shop_uri : Version1SessionUri
shop_uri = record {
  session_id = repeat 16 b'A';
  key_hash = record { hash = repeat 16 b'0' };
  shared_key = record { hex = to_hex (repeat 16 171); cipher = repeat 16 171 };
  signaling_protocol = ntfy;
  signaling_server = text "https://ntfy.sh/?a=b&c";
}

shop_uri-IsValidUri : IsValidUri url_libs shop_uri
unfolding is_url_safe generate to_hex hex_digit
shop_uri-IsValidUri = record {
  session_id = (refl, refl);
  hash_length = refl;
  hash_digits = refl;
  key_length = refl;
  key_digits = refl;
  key_text = generate_lem (repeat 16 171) refl (ground arith);
  protocol = tt;
}

from_url-to_url_example : from_url url_libs (to_url url_libs shop_uri) ≡ ok shop_uri
from_url-to_url_example = from_url-to_url url_libs url_laws shop_uri shop_uri-IsValidUri

generate_session_id-IsSessionId_example : IsSessionId (generate_session_id (repeat 16 200))
generate_session_id-IsSessionId_example = generate_session_id-IsSessionId (repeat 16 200) refl
