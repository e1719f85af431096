-- ===== src/Session/Start/Tests.antt =====
-- A wallet that joins a dApp over MQTT, up to the end of the handshake.
use openlv_rs.Prelude.{arith, ℕ, ◌≡◌, ◌≢◌, refl, sym, ◌∙◌, false, none, some, arith}
use openlv_rs.Text.{bytes_eq}
use openlv_rs.Text.Laws.{bytes_eq_iff}
use openlv_rs.Text.Hex.{to_hex, hex_digit}
use openlv_rs.Errors.{ok}
use openlv_rs.Sample.{repeat, crypto}
use openlv_rs.Encryption.Asymmetric.{generate_key_pair}
use openlv_rs.Encryption.Handshake.KeyText.{IsKey}
use openlv_rs.Encryption.Hash.{hash_public_key, public_key_hash_from}
use openlv_rs.Url.{IsSessionId, is_url_safe, to_url}
use openlv_rs.Url.Sample.{url_libs, url_laws}
use openlv_rs.Session.Start.{SessionConfig, wallet, Started, build_session, on_request}
use openlv_rs.Session.Start.Sample.{libs, draw, shop, opened, shop-opened}
use openlv_rs.Session.Start.Joining.{pairing_of}
use openlv_rs.Session.Start.Linking.{sessions_link}
use openlv_rs.Url.Version.{version1, fmt}
use openlv_rs.Layer.Meeting.{set_up_layers}
use openlv_rs.Layer.Meeting.Lossy.{Losses}
use openlv_rs.Layer.Meeting.Lossy.Timed.{timed_from}
use openlv_rs.Layer.Meeting.Exchange.{IsLinked}
use openlv_rs.Layer.Meeting.Example.{side, side-SideLaws, platform, platform_laws}

opened-IsSessionId : IsSessionId opened.uri.session_id
unfolding build_session is_url_safe
opened-IsSessionId = (refl, refl)

opened-IsKey : IsKey opened.uri.shared_key
unfolding build_session
opened-IsKey = record { key_length = refl; key_bytes = ground arith; key_hex = refl }

different :
    bytes_eq
      (hash_public_key crypto (generate_key_pair crypto (repeat 32 67)).encryption_key)
      opened.uri.key_hash.hash
    ≡ false
unfolding bytes_eq build_session hash_public_key public_key_hash_from generate_key_pair to_hex
    hex_digit
different = refl

other_hash :
    hash_public_key crypto (generate_key_pair crypto (repeat 32 67)).encryption_key
    ≢ opened.uri.key_hash.hash
other_hash = λ e.
    let same =
      (bytes_eq_iff
          (hash_public_key crypto (generate_key_pair crypto (repeat 32 67)).encryption_key)
          opened.uri.key_hash.hash).1
        e in
    let bad = sym same ∙ different in cc

abbrev joining : SessionConfig
joining = wallet (to_url url_libs opened.uri)

joining-url : joining.connect_url ≡ some (fmt url_libs (version1 opened.uri))
unfolding wallet fmt
joining-url = refl

joining-info : joining.info ≡ none
unfolding wallet
joining-info = refl

-- The first flash is lost, two keys of the client, and its first answer.
abbrev some_lost : Losses
some_lost = record {
  flashes = 1;
  host_keys = 0;
  client_keys = 2;
  host_capabilities = 0;
  answers = 1;
}

sessions_link_example :
    (w : Started ℕ ℕ ℕ ℕ ℕ ℕ) × (on_request libs (draw 67) joining ≡ ok w)
    × IsLinked crypto (pairing_of (draw 66) (draw 67) opened.uri.shared_key none joining.info) (
        timed_from platform
          (side 5)
          (side 9)
          some_lost
          (set_up_layers platform (side 5) (side 9) opened.signaling w.signaling))
sessions_link_example =
    sessions_link platform platform_laws url_libs url_laws (λ url. none) (draw 66) (draw 67) shop
      joining opened (side 5) (side 9) some_lost (omega arith) (side-SideLaws 5) (side-SideLaws 9)
      refl shop-opened opened-IsSessionId opened-IsKey joining-url
      (λ i e. let bad = sym joining-info ∙ e in cc) other_hash refl
