-- ===== src/Session/Start/Linking.antt =====
-- Two sessions that know each other by the connection URL alone, up to the end of the handshake.
use openlv_rs.Prelude.{◌<◌, ◌≡◌, ◌≢◌, refl, Option, none, some, true}
use openlv_rs.Text.{Text, text}
use openlv_rs.Errors.{ok, map_err-eq-ok, >>=-eq-ok}
use openlv_rs.Message.{PeerInfo, validate_peer_info, validate_peer_capabilities, is_bounded_string}
use openlv_rs.Encryption.Asymmetric.{generate_key_pair}
use openlv_rs.Encryption.Handshake.KeyText.{IsKey}
use openlv_rs.Encryption.Hash.{hash_public_key}
use openlv_rs.Url.{IsSessionId, UrlLibs, UrlLaws}
use openlv_rs.Url.Version.{version1, fmt}
use openlv_rs.Channel.Ntfy.{NtfyCaptures}
use openlv_rs.Layer.State.{Platform, new}
use openlv_rs.Layer.Meeting.{
  Side, Pairing, set_up_layers, set_up_both, host_properties, client_properties,
}
use openlv_rs.Layer.Meeting.Laws.{SideLaws, PlatformLaws, PairingLaws}
use openlv_rs.Layer.Meeting.Exchange.{IsLinked}
use openlv_rs.Layer.Meeting.Lossy.{Losses}
use openlv_rs.Layer.Meeting.Lossy.Timed.{lost, timed_from, timed_run, handshake_in_time}
use openlv_rs.Session.Start.{
  SessionConfig, Libs, Draw, Started, on_request, own_capabilities, validate_own,
}
use openlv_rs.Session.Start.Joining.{pairing_of, wallet_joins_dapp}

own_capabilities-valid :
    (info : Option PeerInfo)
    → validate_own info ≡ ok tt
    → validate_peer_capabilities (own_capabilities info) ≡ ok tt
unfolding validate_peer_capabilities validate_own is_bounded_string text
own_capabilities-valid none h = refl
own_capabilities-valid (some i) h = rw (map_err-eq-ok _ _ h) refl

-- The libraries of a session whose layers run on `p`.
abbrev pub libs_of : {V : Type 0} → Platform V → UrlLibs → (Text → Option NtfyCaptures) → Libs
libs_of p url ntfy_captures = record { url = url; crypto = p.crypto; ntfy_captures = ntfy_captures }

set_up_layers-new :
    {V : Type 0} (p : Platform V) (m : Pairing) (host_side client_side : Side)
    → set_up_layers p host_side client_side
        (new (host_properties p.crypto m))
        (new (client_properties p.crypto m))
      ≡ set_up_both p host_side client_side m
unfolding set_up_layers set_up_both
set_up_layers-new p m host_side client_side = refl

module _ {V P D C K H : Type 0} (p : Platform V) (laws : PlatformLaws p) (url : UrlLibs)
    (url_laws : UrlLaws url) (ntfy_captures : Text → Option NtfyCaptures) where
  started-valid :
      (draw : Draw) (config : SessionConfig) {s : Started V P D C K H}
      → on_request (libs_of p url ntfy_captures) draw config ≡ ok s
      → validate_own config.info ≡ ok tt
  unfolding on_request
  started-valid draw config h = (>>=-eq-ok (validate_own config.info) _ h).1

  -- Under the laws of the primitives, of JSON and of the URL: a dApp that started without a URL,
  -- with an identifier that the URL pattern accepts and a key of 16 bytes in lower-case hexadecimal,
  -- and a wallet with no or valid peer information whose key has another hash and has a common
  -- secret with the dApp's. The wallet starts from nothing but the text of the dApp's URL, and over
  -- working channels that lose fewer than 15 copies of the handshake's frames in all, each at the
  -- cost of two seconds, no deadline of 30 seconds fires first, and the handshake leaves the signaling
  -- layers of both sessions encrypted, each with the key and the capabilities of the other.
  pub sessions_link :
      (dapp_draw wallet_draw : Draw) (dapp_config wallet_config : SessionConfig)
      (d : Started V P D C K H) (host_side client_side : Side) (losses : Losses)
      → lost losses < 15
      → SideLaws host_side
      → SideLaws client_side
      → dapp_config.connect_url ≡ none
      → on_request (libs_of p url ntfy_captures) dapp_draw dapp_config ≡ ok d
      → IsSessionId d.uri.session_id
      → IsKey d.uri.shared_key
      → wallet_config.connect_url ≡ some (fmt url (version1 d.uri))
      → ((i : PeerInfo) → wallet_config.info ≡ some i → validate_peer_info i ≡ ok tt)
      → hash_public_key p.crypto (generate_key_pair p.crypto wallet_draw.secret_key).encryption_key
        ≢ d.uri.key_hash.hash
      → p.crypto.was_contributory (
          p.crypto.diffie_hellman dapp_draw.secret_key
            (p.crypto.x25519_public wallet_draw.secret_key))
        ≡ true
      → (w : Started V P D C K H) × (on_request
            (libs_of p url ntfy_captures)
            wallet_draw
            wallet_config
          ≡ ok w)
        × IsLinked p.crypto
            (pairing_of dapp_draw wallet_draw d.uri.shared_key dapp_config.info wallet_config.info)
            (timed_from p host_side client_side losses
              (set_up_layers p host_side client_side d.signaling w.signaling))
  unfolding fmt timed_run
  sessions_link dapp_draw wallet_draw dapp_config wallet_config d host_side client_side losses few
        host_works client_works no_url started id key joined valid other contributory =
      let m =
        pairing_of dapp_draw wallet_draw d.uri.shared_key dapp_config.info wallet_config.info in
      let (w, made, _, _, _, host, client) =
        wallet_joins_dapp (libs_of p url ntfy_captures) laws.crypto url_laws dapp_draw wallet_draw
          dapp_config wallet_config d no_url started id key joined valid other in
      let fine : PairingLaws p.crypto m = record {
        host_valid =
            own_capabilities-valid dapp_config.info (started-valid dapp_draw dapp_config started);
        client_valid =
            own_capabilities-valid wallet_config.info
              (started-valid wallet_draw wallet_config made);
        contributory = contributory;
      } in
      (
        w,
        made,
        rw (host, client, set_up_layers-new p m host_side client_side)
            (handshake_in_time p laws m fine host_side host_works client_side client_works losses
              few),
      )
