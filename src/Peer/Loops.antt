-- ===== src/Peer/Loops.antt =====
-- internal/peer/peer.go: readLoop and writeLoop. A stream is the bytes that arrive before its end.
use peerwatch.Base.{ℕ, zero, suc, Bool, true, false, Option, none, some, List, [], ◌∷◌, ◌++◌}
use peerwatch.Base.Lists.{take}
use peerwatch.Base.Results.{ok, err, panic}
use peerwatch.Protocol.Message.{Bytes, Message}
use peerwatch.Protocol.Encode.{frame}
use peerwatch.Protocol.Decode.{DecodeError, read_message}

-- How the loop that reads stops: by an error, with the state behind p.Close(). A stream of `n` bytes
-- takes at most `n` rounds, so `out_of_fuel` has no counterpart in the code.
pub data LoopEnd (S : Type 0) : Type 0 where
  ended : S → DecodeError → LoopEnd S
  crashed out_of_fuel : LoopEnd S

module _ {S : Type 0} (handler : S → Message → S) (close : S → S) where
  unfoldable pub read_loop : ℕ → Bytes → S → LoopEnd S
  read_loop zero stream s = out_of_fuel
  read_loop (suc fuel) stream s = elim (read_message stream) [
    | ok (m, rest) ↦ read_loop fuel rest (handler s m)
    | err e ↦ ended (close s) e
    | panic ↦ crashed
  ]

-- The messages of the queue, oldest first; how the next writes end (`some k` fails after `k` bytes;
-- beyond the list, each succeeds); what was written, and whether the loop has closed the peer. Where
-- the select takes `p.done` instead of a message, that is a write that fails with no byte out.
unfoldable pub write_loop : List Message → List (Option ℕ) → Bytes → Bytes × Bool
write_loop [] writes out = (out, false)
write_loop (m ∷ queue) [] out = write_loop queue [] (out ++ frame m)
write_loop (m ∷ queue) (none ∷ writes) out = write_loop queue writes (out ++ frame m)
write_loop (m ∷ queue) (some k ∷ writes) out = (out ++ take k (frame m), true)
