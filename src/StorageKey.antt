-- ===== src/StorageKey.antt =====
-- node.go: the keys under which nodes are stored, 8 bytes of version and 4 of nonce, big end first.
-- `put_big_endian` and `big_endian` are `PutUint64`, `PutUint32`, `Uint64` and `Uint32` of Go's
-- `binary.BigEndian` at 8 and at 4 bytes.
pub mod Laws
use iavl.Prelude.{
  ℕ, zero, suc, ◌+◌, ◌*◌, ◌/◌, ◌%◌, ◌^◌, [], ◌∷◌, ◌++◌, ltb, if◌then◌else◌, length, take, drop,
  Result, ok, panic, ◌||◌,
}
use iavl.Bytes.{Bytes}
use iavl.Node.{NodeKey}

unfoldable pub put_big_endian : ℕ → ℕ → Bytes
put_big_endian zero x = []
put_big_endian (suc bytes) x = put_big_endian bytes (x / 256) ++ x % 256 ∷ []

unfoldable pub big_endian : ℕ → Bytes → ℕ
big_endian x [] = x
big_endian x (b ∷ bz) = big_endian (x * 256 + b) bz

unfoldable pub get_key : NodeKey → Bytes
get_key nk = put_big_endian 8 nk.version ++ put_big_endian 4 nk.nonce

-- A key that is too short panics, at the version or at the nonce; bytes behind the nonce are ignored.
unfoldable pub get_node_key : Bytes → Result NodeKey
get_node_key key =
    if ltb (length key) 8 || ltb (length (drop 8 key)) 4
    then panic
    else ok
        (record { version = big_endian 0 (take 8 key); nonce = big_endian 0 (take 4 (drop 8 key)) })

unfoldable pub get_root_key : ℕ → Bytes
get_root_key version = put_big_endian 8 version ++ put_big_endian 4 1
