-- ===== src/Client/Server.antt =====
-- `pm_set_server` of client/pm_set_server.c: the address of the server.
use pmlib.Prelude.{
  ℕ, zero, suc, ◌<◌, ◌≡◌, refl, ap, List, [], ◌∷◌, ◌++◌, arith, ◌==◌, if◌then◌else◌, length, take,
  All, length-append,
}
use pmlib.Prelude.Int.{ℤ}
use pmlib.Map.{Name}

-- `server_t`
pub record ServerT : Type 0 where
  pub server_ip : List ℕ
  pub port : ℤ

-- `strncpy`: the characters in front of the final zero, as many as there is room for, and zeros behind
-- them.
unfoldable pub strncpy : Name → ℕ → List ℕ
strncpy s zero = []
strncpy [] (suc n) = 0 ∷ strncpy [] n
strncpy (c ∷ cs) (suc n) = c ∷ strncpy cs n

-- `SERVER_IP_LEN` is 16.
unfoldable pub pm_set_server : Name → ℤ → ServerT
pm_set_server ip port = record { server_ip = strncpy ip 15 ++ 0 ∷ []; port = port }

-- What a reader of the array sees: the characters up to the first zero; none where there is no zero.
abbrev pub c_string : List ℕ → Name
c_string [] = []
c_string (c ∷ cs) = let rest = c_string cs in if c == 0 then [] else c ∷ rest

strncpy-empty : (n : ℕ) → c_string (strncpy [] n ++ 0 ∷ []) ≡ []
unfolding strncpy
strncpy-empty zero = refl
strncpy-empty (suc n) = refl

c_string-strncpy :
    (s : Name) (n : ℕ) → All (λ c. 0 < c) s → c_string (strncpy s n ++ 0 ∷ []) ≡ take n s
unfolding strncpy
c_string-strncpy s zero h = refl
c_string-strncpy [] (suc n) h = refl
c_string-strncpy (c ∷ cs) (suc n) h = ground (arith, c_string-strncpy cs n h.1)

length-strncpy : (s : Name) (n : ℕ) → length (strncpy s n) ≡ n
unfolding strncpy
length-strncpy s zero = refl
length-strncpy [] (suc n) = ap suc (length-strncpy [] n)
length-strncpy (c ∷ cs) (suc n) = ap suc (length-strncpy cs n)

-- From an address without zeros pm_set_server fills just the 16 bytes of the field, and a reader of
-- the field finds the first 15 characters of the address.
pub pm_set_server_lem :
    (ip : Name) (port : ℤ)
    → All (λ c. 0 < c) ip
    → (length (pm_set_server ip port).server_ip ≡ 16)
      × (c_string (pm_set_server ip port).server_ip ≡ take 15 ip)
unfolding pm_set_server
pm_set_server_lem ip port h = (
  omega (arith, length-append (strncpy ip 15) (0 ∷ []), length-strncpy ip 15),
  c_string-strncpy ip 15 h,
)
