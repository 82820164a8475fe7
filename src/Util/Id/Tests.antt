-- ===== src/Util/Id/Tests.antt =====
-- Tests of util/id.go.
use container_web_tty.Base.{All, length, Bytes, str, ◌≡◌, refl, arith}
use container_web_tty.Util.Id.{symbol, source, id, encode}
use container_web_tty.Util.Id.Shuffling.{count, id-rearranges}
use container_web_tty.Util.Id.Alphabet.{IsAlphanumeric, IsBase64, id-IsBase64, id-IsAlphanumeric}

abbrev container_id : Bytes
container_id = str "4f66ad9a0b2e7f31"

encodes : encode (source container_id) ≡ str "NGY2NmFkOWEwYjJlN2Yz"
unfolding encode source symbol
encodes = refl

-- A short salt is followed by the digest of the empty text.
short_salt : encode (source (str "11")) ≡ str "MTHUHYzZjwCyBOmACZjs"
unfolding encode source symbol
short_salt = refl

id-rearranges_test :
    count 78 (id (λ i. 0) container_id) ≡ count 78 (id (λ i. i) (str "4f66ad9a0b2e7f3"))
unfolding source
id-rearranges_test = id-rearranges 78 (λ i. 0) (λ i. i) container_id (str "4f66ad9a0b2e7f3") refl

id-IsBase64_example : (length (id (λ i. i) (str "1")) ≡ 20) × All IsBase64 (id (λ i. i) (str "1"))
id-IsBase64_example = id-IsBase64 (λ i. i) (str "1")

id-IsAlphanumeric_example : All IsAlphanumeric (id (λ i. i) container_id)
id-IsAlphanumeric_example = id-IsAlphanumeric (λ i. i) container_id (omega arith) (ground arith)
