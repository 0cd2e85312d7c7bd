-- ===== src/Commands/Rooms.antt =====
-- cmd/start.go: the room that start opens for a video file.
use peerwatch.Base.{
  ℕ, zero, suc, ◌+◌, ◌-◌, ◌*◌, ◌/◌, ◌%◌, ◌^◌, ◌<◌, ◌≡◌, ◌≢◌, refl, ap, inl, inr, true, false,
  Option, none, some, List, [], ◌∷◌, ◌++◌, arith, Bool,
}
use peerwatch.Base.Tests.{ltb, Bool-cases}
use peerwatch.Base.Lists.{length, All}
use peerwatch.Base.Int.{ℤ, pos}
use peerwatch.Base.Results.{ok}
use peerwatch.Protocol.Message.{Bytes, Digest, PeerId}
use peerwatch.Chunk.Chunker.Counting.{Fits, ceil_div_bounds}
use peerwatch.Chunk.Counts.{manifest_of}
use peerwatch.Chunk.Bitfield.{make_bitfield}
use peerwatch.Chunk.Manifest.Build.{Delivers, build_manifest_lem}
use peerwatch.Chunk.Store.Reads.{is_complete}
use peerwatch.Chunk.Store.Integrity.{IsGenuine, chunk_total}
use peerwatch.Chunk.Store.Lifecycle.{new_host_store-IsGenuine}
use peerwatch.Peer.Duties.{empty_swarm, new_swarm, listen}
use peerwatch.Token.{Token, decode, token_prefix, is_empty}
use peerwatch.Token.RoundTrip.{IsUsable, IsJson, is_empty-false, decode-encode}
use native.Mathlib.Nat.{pow-suc}
use peerwatch.Commands.Start.{
  has_byte, ext, base, last_element, trim_slashes, supported, supported_formats, digits, decimal,
  hex_string, generate_room_id, get_local_ip, Machine, Room, token_for, check_file, open_room,
  start,
}

ext_none : (s : Bytes) → has_byte b'.' s ≡ false → ext s ≡ []
unfolding ext has_byte
ext_none [] h = refl
ext_none (c ∷ s) h = ground (arith, h, ext_none s (ground (arith, h)))

-- The extension is what stands behind the last dot, and the dot.
ext-append :
    (stem e : Bytes)
    → has_byte b'.' e ≡ false
    → has_byte b'/' e ≡ false
    → ext (stem ++ b'.' ∷ e) ≡ b'.' ∷ e
unfolding ext
ext-append [] e dot slash = rw (ext_none e dot, slash) refl
ext-append (c ∷ stem) e dot slash = rw (ext-append stem e dot slash) refl

-- The digits of a number, read again.
abbrev value_from : ℕ → Bytes → ℕ
value_from acc [] = acc
value_from acc (c ∷ s) = value_from (acc * 10 + (c - 48)) s

value_from-append :
    (acc : ℕ) (s t : Bytes) → value_from acc (s ++ t) ≡ value_from (value_from acc s) t
value_from-append acc [] t = refl
value_from-append acc (c ∷ s) t = value_from-append (acc * 10 + (c - 48)) s t

-- Twenty digits are enough for an int64: they say the number.
pub value_from-digits : (fuel n : ℕ) → n < 10 ^ fuel → value_from 0 (digits fuel n) ≡ n
unfolding digits
value_from-digits zero n h = omega arith
value_from-digits (suc fuel) n h = elim (Bool-cases (ltb n 10)) [
  | inl small ↦ rw small (omega arith)
  | inr large ↦
      rw
        (
          large,
          value_from-append 0 (digits fuel (n / 10)) ((48 + n % 10) ∷ []),
          value_from-digits fuel (n / 10) (omega (arith, pow-suc 10 fuel)),
        )
        (omega arith)
]

length-hex_string : (bs : Bytes) → length (hex_string bs) ≡ 2 * length bs
unfolding hex_string
length-hex_string [] = refl
length-hex_string (b ∷ bs) = omega (arith, length-hex_string bs)

base-filled : (path : Bytes) → base path ≢ []
unfolding base
base-filled [] = λ e. cc
base-filled (c ∷ s) = elim (Bool-cases (is_empty (last_element (trim_slashes (c ∷ s))))) [
  | inl none_left ↦ rw none_left (λ e. cc)
  | inr filled ↦ rw filled (is_empty-false _ filled)
]

-- A machine on which everything succeeds: the file is a video with these bytes, and can be opened.
abbrev pub sound_machine :
    {L : Type 0} → Bytes → List ℕ → L → Bytes → Option Bytes → PeerId → Machine L
sound_machine orig order l random outbound id = record {
  stat = ok false;
  hashed = ok (record { contents = orig; fault = none });
  opened = ok (record { contents = orig; fault = none });
  order = order;
  listener = λ addr. ok l;
  random = some random;
  outbound = outbound;
  self_id = id;
}

-- The token of a host that listens on `port`, for the file at `path`.
abbrev pub room_token : (Bytes → Digest) → Bytes → ℕ → Bytes → Option Bytes → Bytes → ℤ → Token
room_token sha256 orig cs random outbound path port =
    token_for (get_local_ip outbound) port (hex_string random)
      (manifest_of sha256 orig cs (base path))

host_filled : (ip s : Bytes) → ip ++ b':' ∷ s ≢ []
host_filled [] s = λ e. cc
host_filled (c ∷ ip) s = λ e. cc

hex_string-filled : (bs : Bytes) → length bs ≡ 4 → hex_string bs ≢ []
unfolding hex_string
hex_string-filled [] h = absurd (omega arith)
hex_string-filled (b ∷ bs) h = λ e. cc

module _ (to_lower : Bytes → Bytes) (sha256 : Bytes → Digest) (split_host_port : Bytes → Bool)
    (marshal : Token → Option Bytes) (unmarshal : Bytes → Option Token) where
  -- start of a readable video file, with an extension that is in the list when it is in lower case
  pub start-decode :
      {F L : Type 0} (orig : Bytes) (cs : ℕ) (order : List ℕ) (l : L) (random : Bytes)
      (outbound : Option Bytes) (id : PeerId) (stem e : Bytes) (port : ℤ) (more : List Bytes)
      → Fits (length orig) cs
      → All (λ i. i < chunk_total orig cs) order
      → ((i : ℕ) → i < chunk_total orig cs → Delivers i order)
      → has_byte b'.' e ≡ false
      → has_byte b'/' e ≡ false
      → supported supported_formats (to_lower (b'.' ∷ e)) ≡ true
      → length random ≡ 4
      → split_host_port (get_local_ip outbound ++ b':' ∷ decimal port) ≡ true
      → IsJson marshal unmarshal (room_token sha256 orig cs random outbound (stem ++ b'.' ∷ e) port)
      → (r : Room F L) × (start to_lower sha256 split_host_port marshal
            (sound_machine orig order l random outbound id)
            port
            (pos cs)
            ((stem ++ b'.' ∷ e) ∷ more)
          ≡ ok r)
        × IsGenuine sha256 orig cs (base (stem ++ b'.' ∷ e)) r.store
        × (is_complete r.store ≡ true)
        × (r.store.file.fault ≡ none)
        × (r.swarm
            ≡ empty_swarm id (some (manifest_of sha256 orig cs (base (stem ++ b'.' ∷ e)))) true)
        × (decode split_host_port unmarshal r.invitation
            ≡ ok (room_token sha256 orig cs random outbound (stem ++ b'.' ∷ e) port))
        × (length (room_token sha256 orig cs random outbound (stem ++ b'.' ∷ e) port).room_id ≡ 8)
        × (length r.store.bitfield ≡ length (make_bitfield (chunk_total orig cs)))
  unfolding start check_file open_room generate_room_id new_swarm listen token_for
  start-decode orig cs order l random outbound id stem e port more fits inside all dot slash known
        four good json =
      let path = stem ++ b'.' ∷ e in
      let t = room_token sha256 orig cs random outbound path port in
      let usable : IsUsable split_host_port t = record {
        has_host = host_filled (get_local_ip outbound) (decimal port);
        good_host = good;
        has_room = hex_string-filled random four;
        has_name = base-filled path;
        good_size = ground (arith, fits.some_bytes);
        good_count =
            ground (arith, (ceil_div_bounds (length orig) cs fits.some_size fits.some_bytes).2);
      } in
      let (s, encodes, reads, bare) =
        decode-encode split_host_port marshal unmarshal t usable json in
      let (store, opens, genuine, complete, marks, file, long) =
        new_host_store-IsGenuine sha256 orig cs (base path) fits in
      let m = manifest_of sha256 orig cs (base path) in
      (
        record {
          store = store;
          swarm = empty_swarm id (some m) true;
          listening = l;
          token = t;
          invitation = token_prefix ++ s;
        },
        rw
            (
              ext-append stem e dot slash,
              known,
              build_manifest_lem sha256 orig cs fits (base path) order inside all,
              opens,
              encodes,
            )
            refl,
        genuine,
        complete,
        ap (λ f. f.fault) file,
        refl,
        reads,
        omega (arith, length-hex_string random, four),
        long,
      )
