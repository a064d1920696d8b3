-- ===== src/Session/SecureChannel/Tests/Accepted.antt =====
-- A channel that is opened by concrete bytes (src/session/securechannel.rs), with the toy cipher.
use yubihsm_rs.Base.{ℕ, ◌≡◌, ◌↔◌, refl, arith, List, [], ◌∷◌, ◌++◌, replicate, Option, some, ok}
use yubihsm_rs.Response.Message as Response
use yubihsm_rs.Session.SecureChannel.Accepted.{IsInvitation, open_channel_iff}
use yubihsm_rs.Session.SecureChannel.Create.{open_channel}
use yubihsm_rs.Session.SecureChannel.Handshake.{fresh}
use yubihsm_rs.Session.SecureChannel.Kdf.{from_challenges, mac_half, derivation_data}
use yubihsm_rs.Session.SecureChannel.Toy.{toy, toy-laws, checksum}

-- An answer with the number 3, a challenge of twos, and the cryptogram of the key.
abbrev reply : List ℕ
reply = 0x83 ∷ 0 ∷ 17 ∷ 3 ∷ (replicate 8 2 ++ (233 ∷ replicate 7 25))

-- A connector that gives it to every frame.
abbrev replying : List ℕ → ℕ → Option (List ℕ) × ℕ
replying frame w = (some reply, w)

abbrev key : List ℕ
key = replicate 32 9

open_channel_iff_example :
    (open_channel replying toy 1 key (replicate 8 1) 0
      ≡ (ok (fresh toy 3 key (replicate 8 1) (replicate 8 2)), 0))
    ↔ IsInvitation toy toy-laws key
        (replicate 8 1)
        refl
        reply
        (fresh toy 3 key (replicate 8 1) (replicate 8 2))
open_channel_iff_example =
    open_channel_iff toy toy-laws key (replicate 8 1) refl replying 1 reply 0 0
      (fresh toy 3 key (replicate 8 1) (replicate 8 2)) refl refl (ground arith)

-- The answer is one that opens a channel.
replying-IsInvitation :
    IsInvitation toy toy-laws key
      (replicate 8 1)
      refl
      reply
      (fresh toy 3 key (replicate 8 1) (replicate 8 2))
unfolding Response.len Response.serialize mac_half derivation_data checksum from_challenges
replying-IsInvitation = (3, replicate 8 2, [], omega arith, refl, omega arith, refl, refl)
