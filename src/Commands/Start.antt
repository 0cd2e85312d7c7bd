-- ===== src/Commands/Start.antt =====
-- cmd/start.go: what start checks, and the room that it opens: manifest, store, swarm and token. What the
-- machine answers is a parameter: os.Stat, the opened file, the listener, the random bytes, and the
-- local address of a dialled socket. A call of log.Fatalf or os.Exit is an error.
use peerwatch.Base.{
  ℕ, zero, suc, ◌+◌, ◌/◌, ◌%◌, Bool, true, false, not, ◌&&◌, ◌||◌, Option, none, some, List, [],
  ◌∷◌, ◌++◌,
}
use peerwatch.Base.Tests.{ltb, ◌==◌, if◌then◌else◌}
use peerwatch.Base.Int.{ℤ, pos, negsuc}
use peerwatch.Base.Results.{Result, ok, err, panic, ◌>>=◌, wrap_error}
use peerwatch.Protocol.Message.{Bytes, Digest, PeerId}
use peerwatch.Chunk.File.{IoError, File}
use peerwatch.Chunk.Manifest.{Manifest, BuildError, build_manifest}
use peerwatch.Chunk.Store.Defs.{Store, StoreError, new_host_store}
use peerwatch.Peer.Swarm.{Swarm, same_bytes}
use peerwatch.Peer.Duties.{ListenError, new_swarm, listen}
use peerwatch.Token.{Token, TokenError, is_empty, encode}

-- A byte of the string.
unfoldable pub has_byte : ℕ → Bytes → Bool
has_byte b [] = false
has_byte b (c ∷ s) = c == b || has_byte b s

-- filepath.Ext: from the last dot of the last element on.
unfoldable pub ext : Bytes → Bytes
unfolding has_byte
ext [] = []
ext (c ∷ s) =
    let found = ext s in
    if not (is_empty found) then found else if c == b'.' && not (has_byte b'/' s) then c ∷ s else []

unfoldable pub trim_slashes : Bytes → Bytes
trim_slashes [] = []
trim_slashes (c ∷ s) =
    let rest = trim_slashes s in if is_empty rest && c == b'/' then [] else c ∷ rest

unfoldable pub last_element : Bytes → Bytes
unfolding has_byte
last_element [] = []
last_element (c ∷ s) =
    let later = last_element s in if has_byte b'/' s then later else if c == b'/' then s else c ∷ s

-- filepath.Base
unfoldable pub base : Bytes → Bytes
unfolding trim_slashes last_element
base [] = b'.' ∷ []
base (c ∷ s) =
    let element = last_element (trim_slashes (c ∷ s)) in
    if is_empty element then b'/' ∷ [] else element

abbrev pub supported_formats : List Bytes
supported_formats =
    (b'.' ∷ b'm' ∷ b'p' ∷ b'4' ∷ [])
    ∷ (b'.' ∷ b'm' ∷ b'k' ∷ b'v' ∷ [])
    ∷ (b'.' ∷ b'a' ∷ b'v' ∷ b'i' ∷ [])
    ∷ (b'.' ∷ b'w' ∷ b'e' ∷ b'b' ∷ b'm' ∷ [])
    ∷ []

unfoldable pub supported : List Bytes → Bytes → Bool
supported [] name = false
supported (f ∷ formats) name = same_bytes f name || supported formats name

-- %d of a number with at most `fuel` digits, and of an int64, which has at most 19.
unfoldable pub digits : ℕ → ℕ → Bytes
digits zero n = []
digits (suc fuel) n =
    let high = digits fuel (n / 10) in
    if ltb n 10 then (48 + n) ∷ [] else high ++ (48 + n % 10) ∷ []

unfoldable pub decimal : ℤ → Bytes
unfolding digits
decimal (pos n) = digits 20 n
decimal (negsuc n) = b'-' ∷ digits 20 (suc n)

abbrev hex_digit : ℕ → ℕ
hex_digit n = if ltb n 10 then 48 + n else 87 + n

-- hex.EncodeToString
unfoldable pub hex_string : Bytes → Bytes
hex_string [] = []
hex_string (b ∷ bs) = hex_digit (b / 16) ∷ hex_digit (b % 16) ∷ hex_string bs

-- `random` is what rand.Read puts into the four bytes, if it does not fail.
unfoldable pub generate_room_id : {E : Type 0} → Option Bytes → Result E Bytes
unfolding hex_string
generate_room_id none = panic
generate_room_id (some random) = ok (hex_string random)

-- `outbound` is the local address of the socket that net.Dial gives.
unfoldable pub get_local_ip : Option Bytes → Bytes
get_local_ip none = b'1' ∷ b'2' ∷ b'7' ∷ b'.' ∷ b'0' ∷ b'.' ∷ b'0' ∷ b'.' ∷ b'1' ∷ []
get_local_ip (some outbound) = outbound

pub data StartError : Type 0 where
  usage is_directory : StartError
  cannot_access : IoError → StartError
  unsupported_format : Bytes → StartError
  manifest_failed : BuildError → StartError
  store_failed : StoreError → StartError
  listen_error : ListenError → StartError
  token_failed : TokenError → StartError

-- What the machine answers: whether the path is a directory; the file, when it is hashed and when the
-- store opens it; the order in which the hashes arrive; net.Listen on an address; and the rest as above.
pub record Machine (L : Type 0) : Type 0 where
  pub stat : Result IoError Bool
  pub hashed : Result IoError File
  pub opened : Result IoError File
  pub order : List ℕ
  pub listener : Bytes → Result IoError L
  pub random : Option Bytes
  pub outbound : Option Bytes
  pub self_id : PeerId

pub record Room (F L : Type 0) : Type 0 where
  pub store : Store
  pub swarm : Swarm F
  pub listening : L
  pub token : Token
  pub invitation : Bytes

-- The token of a room.
unfoldable pub token_for : Bytes → ℤ → Bytes → Manifest → Token
unfolding decimal
token_for ip port room m = record {
  host = ip ++ b':' ∷ decimal port;
  room_id = room;
  file_name = m.file_name;
  file_size = m.file_size;
  chunk_count = pos m.chunk_count;
}

module _ (to_lower : Bytes → Bytes) where
  -- What comes before the manifest; `to_lower` is strings.ToLower.
  unfoldable pub check_file : Bytes → Result IoError Bool → Result StartError (Unit {0})
  unfolding ext supported
  check_file path (err e) = err (cannot_access e)
  check_file path panic = panic
  check_file path (ok true) = err is_directory
  check_file path (ok false) =
      if supported supported_formats (to_lower (ext path))
      then ok tt
      else err (unsupported_format (to_lower (ext path)))

  module _ (sha256 : Bytes → Digest) (split_host_port : Bytes → Bool)
      (marshal : Token → Option Bytes) {F L : Type 0} where
    unfoldable pub open_room : Machine L → ℤ → ℤ → Bytes → Result StartError (Room F L)
    unfolding base decimal generate_room_id get_local_ip token_for
    open_room machine port chunk_size path =
        wrap_error manifest_failed
          (build_manifest sha256 machine.hashed (base path) chunk_size machine.order)
        >>= λ m. wrap_error store_failed (new_host_store machine.opened m) >>= λ store.
            new_swarm machine.self_id (some store) (some m) true >>= λ swarm.
            wrap_error listen_error (listen (machine.listener (b':' ∷ decimal port)) swarm) >>= λ l.
            generate_room_id machine.random >>= λ room.
            let t = token_for (get_local_ip machine.outbound) port room m in
            wrap_error token_failed (encode split_host_port marshal t) >>= λ invitation.
            ok (record {
              store = store;
              swarm = swarm;
              listening = l;
              token = t;
              invitation = invitation;
            })

    -- Start, on the flags `port` and `chunk_size` and the arguments behind them.
    unfoldable pub start : Machine L → ℤ → ℤ → List Bytes → Result StartError (Room F L)
    unfolding check_file open_room
    start machine port chunk_size [] = err usage
    start machine port chunk_size (path ∷ more) =
        check_file path machine.stat >>= λ _. open_room machine port chunk_size path
