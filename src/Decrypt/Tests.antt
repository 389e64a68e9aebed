-- ===== src/Decrypt/Tests.antt =====
-- Nonces of src/floodgate/decrypt.py.
use floodgate.Value.Int.{pos, negsuc, low_bits}
use floodgate.Decrypt.{build_nonce}
use floodgate.Decrypt.Nonce.{HasLayout, build_nonce-HasLayout}

build_nonce-HasLayout_example :
    HasLayout
      (build_nonce (pos 305419896) (negsuc 0))
      (low_bits 64 (pos 305419896))
      (low_bits 32 (negsuc 0))
build_nonce-HasLayout_example = build_nonce-HasLayout (pos 305419896) (negsuc 0)
