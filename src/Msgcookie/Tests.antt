-- ===== src/Msgcookie/Tests.antt =====
-- The chain of cookies on small examples.
use libfaim.Prelude.{◌≡◌, refl, List, [], ◌∷◌, arith, some}
use libfaim.Msgcookie.{Msgcookie, same_bytes, checkcookie, cachecookie, gettype, append_front}
use libfaim.Msgcookie.Held.{held, Differ}
use libfaim.Msgcookie.Cache.{IsJar, cachecookie-held, cachecookie-IsJar}

abbrev chat : Msgcookie
chat = record {
  addr = 100;
  cookie = 1 ∷ 2 ∷ 3 ∷ 4 ∷ 5 ∷ 6 ∷ 7 ∷ 8 ∷ [];
  type = 5;
  content = 900;
  addtime = 10;
}

abbrev getfile : Msgcookie
getfile = record {
  addr = 200;
  cookie = 8 ∷ 8 ∷ 8 ∷ 8 ∷ 8 ∷ 8 ∷ 8 ∷ 8 ∷ [];
  type = 0x11;
  content = 901;
  addtime = 11;
}

-- Another object with the name of `chat`.
abbrev chat_again : Msgcookie
chat_again = record chat { addr = 300; content = 902 }

abbrev jar : List Msgcookie
jar = getfile ∷ chat ∷ []

checkcookie_second : checkcookie jar chat.cookie 5 ≡ some chat
unfolding checkcookie same_bytes
checkcookie_second = refl

gettype_chat : gettype 0x08 ≡ 5
unfolding gettype
gettype_chat = refl

empty-IsJar : IsJar []
empty-IsJar = record { single = λ ck type. omega arith; apart = λ a. omega arith }

-- What two requests leave.
jar-IsJar : IsJar jar
unfolding cachecookie checkcookie append_front same_bytes
jar-IsJar =
    cachecookie-IsJar (chat ∷ []) (cachecookie-IsJar [] empty-IsJar 10 chat refl) 11 getfile refl

cachecookie-IsJar_example : IsJar (cachecookie 50 jar chat_again).1
cachecookie-IsJar_example = cachecookie-IsJar jar jar-IsJar 50 chat_again refl

apart_names : Differ chat.cookie 5 getfile.cookie 0x11
apart_names = λ e. absurd (omega (arith, e.1))

-- The older cookie of the same name is gone.
cachecookie-held_example :
    ((cachecookie 50 jar chat_again).0 ≡ 0)
    × (held (cachecookie 50 jar chat_again).1 chat.cookie 5
        ≡ record chat_again { addtime = 50 } ∷ [])
    × (held (cachecookie 50 jar chat_again).1 getfile.cookie 0x11 ≡ getfile ∷ [])
unfolding same_bytes
cachecookie-held_example =
    cachecookie-held jar jar-IsJar 50 chat_again refl getfile.cookie 0x11 apart_names
