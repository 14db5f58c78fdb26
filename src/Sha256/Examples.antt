-- ===== src/Sha256/Examples.antt =====
-- Test vectors of SHA-256 for src/core/sha256.js.
use para11ax.Common.{◌≡◌, refl, ◌++◌, ◌%◌, ◌≤◌, ◌<◌, ◌+◌, length}
use para11ax.JsText.{codes}
use para11ax.Sha256.{
  padded_length, pad, set_at, set_bytes, extend_schedule, round, rounds, digest_block,
  digest_blocks, to_hex, sha256_hex,
}
use para11ax.Sha256.Padding.{padding, pad-padding}

abc :
    sha256_hex (codes "abc")
    ≡ codes "ba7816bf8f01cfea414140de5dae2223b00361a396177a9cb410ff61f20015ad"
unfolding sha256_hex pad set_at set_bytes extend_schedule round rounds digest_block digest_blocks
    to_hex
abc = refl

two_blocks :
    sha256_hex (codes "abcdbcdecdefdefgefghfghighijhijkijkljklmklmnlmnomnopnopq")
    ≡ codes "248d6a61d20638b8e5c026930c3e6039a33ce45964ff2167f6ecedd419db06c1"
unfolding sha256_hex pad set_at set_bytes extend_schedule round rounds digest_block digest_blocks
    to_hex
two_blocks = refl

pad-padding_example :
    (pad (codes "abc") ≡ codes "abc" ++ padding 3)
    × (length (pad (codes "abc")) ≡ padded_length 3)
    × (padded_length 3 % 64 ≡ 0)
    × 3 + 9 ≤ padded_length 3
    × padded_length 3 < 3 + 9 + 64
pad-padding_example = pad-padding (codes "abc")
