-- ===== src/Transfer/Names/Tests.antt =====
-- Names and addresses of src/transfer.rs at concrete texts; those of `listen_addr_shorthand` among them.
use girth.Prelude.{◌≡◌, refl}
use girth.Prelude.Int.{pos}
use girth.Shared.Result.{ok, err}
use girth.Shared.Text.{text}
use girth.Transfer.Names.{
  basename, served_object_name, invalid_name, normalize_listen_addr, peer_target,
}
use girth.Transfer.Names.Laws.{IsPlain, served_object_name-IsPlain}

listen_addr_shorthand :
    (normalize_listen_addr (text ":7400") ≡ text "0.0.0.0:7400")
    × (normalize_listen_addr (text "7400") ≡ text "0.0.0.0:7400")
    × (normalize_listen_addr (text "127.0.0.1:7400") ≡ text "127.0.0.1:7400")
    × (normalize_listen_addr (text "[::]:7400") ≡ text "[::]:7400")
unfolding normalize_listen_addr
listen_addr_shorthand = (refl, refl, refl, refl)

ipv6_peer : peer_target (text "[::1]:7400") (pos 9000) ≡ text "::1:9000"
unfolding peer_target
ipv6_peer = refl

outside : served_object_name (text "../..") ≡ err invalid_name
unfolding served_object_name
outside = refl

inside : served_object_name (text "/etc/passwd") ≡ ok (text "passwd")
unfolding served_object_name
inside = refl

served_object_name-IsPlain_example :
    (text "passwd" ≡ basename (text "/etc/passwd")) × IsPlain (text "passwd")
served_object_name-IsPlain_example =
    served_object_name-IsPlain (text "/etc/passwd") (text "passwd") inside
