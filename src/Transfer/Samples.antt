-- ===== src/Transfer/Samples.antt =====
-- A concrete client, server and object for the tests: a concatenation stands for the HMAC, the length for
-- the checksum, and a connection is a number that stays as it is.
use girth.Prelude.{ℕ, ◌+◌, true, false, List, [], ◌∷◌, ◌++◌, Option, none, some, length, replicate}
use girth.Prelude.Int.{pos}
use girth.Shared.Float.{whole}
use girth.Shared.Result.{Result, ok}
use girth.Shared.Text.{text}
use girth.Error.{IoError, other_error}
use girth.Control.{Hello, Ack, TransferParams, default_params, default_ack, bytes_or_none}
use girth.Crypto.Negotiate.{Negotiated, cipher_chacha}
use girth.Crypto.Tests.{toy, plain_box}
use girth.Io.{BlockSource}
use girth.Io.Memory.{MemSink, mem_source, allocate}
use girth.Receiver.{SocketAddr}
use girth.Receiver.Setup.{RecvConfig}
use girth.Sender.Setup.{SendConfig}
use girth.Transfer.{with_hello}
use girth.Transfer.Client.{Crates, ClientNet, SinkCalls, make_request}
use girth.Transfer.Push.{push_request}
use girth.Transfer.Pull.{pull_request}
use girth.Transfer.Server.{ServerNet, accept_ack}
use girth.Transfer.Serve.{Job, served_recv_config, served_send_config}
use girth.Transfer.Connection.{Authorizer}

abbrev pub crates : Crates
crates = record {
  crypto = toy;
  hmac = λ key message. key ++ message;
  crc32c_append = λ c bytes. c + length bytes;
  crypto_failed = text "no common cipher suite";
  integrity_text = λ name got want. text "integrity failure";
}

abbrev pub token : List ℕ
token = 7 ∷ 7 ∷ []

abbrev pub file : List ℕ
file = 1 ∷ 2 ∷ 3 ∷ 4 ∷ 5 ∷ []

unfoldable pub source : BlockSource
unfolding mem_source
source = mem_source file

abbrev pub object : List ℕ
object = text "a.txt"

abbrev pub params : TransferParams
params = record default_params { encrypt = true }

abbrev pub peer : SocketAddr
peer = record { ip = 9; port = 5000 }

-- A client that reads the given answer.
abbrev pub client : Ack → ClientNet ℕ
client a = record {
  write_json = λ h s. ok s;
  read_json = λ s. ok (a, s);
  fresh = 3 ∷ 4 ∷ [];
  aes = true;
  to_socket_addrs = λ target. ok (peer ∷ []);
  new_udp_socket = λ port rio. ok 40000;
  source_error = other_error [];
}

abbrev pub server_net : ServerNet ℕ
server_net = record {
  write_json = λ a s. ok s;
  fresh = 5 ∷ [];
  aes = false;
  new_udp_socket = λ port rio. ok 41000;
}

abbrev pub authorizer : Option Authorizer
authorizer = some (λ mode name. ok token)

unfoldable pub sinks : SinkCalls MemSink
unfolding allocate
sinks = record {
  allocate = λ len s. (ok tt, allocate len s);
  finalize = λ s. (ok tt, s);
  read_crc32c = λ s. ok (some (length s));
}

abbrev pub open_sink : List ℕ → Result IoError MemSink
open_sink _ = ok []

abbrev pub open_source : List ℕ → Result IoError BlockSource
open_source _ = ok source

-- The hello of a push does not depend on the answer.
unfoldable pub push_hello : Hello
unfolding push_request make_request source
push_hello =
    (push_request crates whole (client default_ack) (text "host:7400") params none (some token)
      source object 5).hello

unfoldable pub pull_hello : Hello
unfolding pull_request make_request
pull_hello =
    (pull_request crates whole (client default_ack) sinks (text "host:7400") params none
      (some token) object).hello

unfoldable pub job : Hello → List ℕ → Job
unfolding with_hello
job h mac = record {
  session = 99;
  params = with_hello default_params h;
  peer_ip = 9;
  udp_range = none;
  auth_state = some (record { token = token; client_mac = mac });
}

abbrev pub negotiated : Negotiated toy
negotiated = record {
  enabled = true;
  cipher = cipher_chacha;
  pub_key = replicate {A = ℕ} 32 1;
  box = some plain_box;
}

unfoldable pub push_job : Job
unfolding push_hello job
push_job = job push_hello (bytes_or_none push_hello.auth_mac)

unfoldable pub pull_job : Job
unfolding pull_hello job
pull_job = job pull_hello (bytes_or_none pull_hello.auth_mac)

unfoldable pub push_answer : Ack
unfolding accept_ack push_hello push_job
push_answer = accept_ack crates server_net push_hello 99 41000 push_job.auth_state negotiated

unfoldable pub pull_answer : Ack
unfolding accept_ack pull_hello pull_job
pull_answer =
    record (accept_ack crates server_net pull_hello 99 41000 pull_job.auth_state negotiated) {
      size = pos 5;
      crc32c = 5;
    }

unfoldable pub recv_config : RecvConfig whole
unfolding served_recv_config push_hello push_job
recv_config = served_recv_config crates whole server_net push_hello push_job negotiated

unfoldable pub send_config : SendConfig whole
unfolding served_send_config pull_hello pull_job source
send_config = served_send_config crates whole server_net pull_hello pull_job source negotiated

-- A peer that refuses.
abbrev pub refusal : Ack
refusal = record default_ack { err = text "no such file" }

-- Runs of the data plane: the receiver's fills the sink.
abbrev pub run_send : SendConfig whole → Result IoError (Unit {0})
run_send cfg = ok tt

abbrev pub run_recv : RecvConfig whole → MemSink → Result IoError (Unit {0}) × MemSink
run_recv cfg sink = (ok tt, file)

abbrev pub tcp_connect : SocketAddr → ℕ → Result IoError ℕ
tcp_connect at seconds = ok 0
