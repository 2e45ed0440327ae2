-- ===== src/Cc.antt =====
-- cc/algorithm.go: the names of the congestion control algorithms.
use rtp_over_quic.Base.{
  ℕ, zero, suc, ◌≡◌, refl, String, str_eq, if◌then◌else◌, ◌==◌, ◌<◌, arith, ◌⊎◌, eq_iff,
}

-- An Algorithm is an int; the constants are 0 to 5.
abbrev pub reno : ℕ
reno = 0

abbrev cubic : ℕ
cubic = 1

abbrev bbr : ℕ
bbr = 2

abbrev pub scream : ℕ
scream = 3

abbrev pub gcc : ℕ
gcc = 4

abbrev no_algorithm : ℕ
no_algorithm = 5

unfoldable pub algorithm_from_string : String → ℕ
algorithm_from_string a =
    if str_eq a "reno"
    then reno
    else (if str_eq a "cubic"
        then cubic
        else (if str_eq a "bbr"
            then bbr
            else (if str_eq a "scream"
                then scream
                else (if str_eq a "gcc"
                    then gcc
                    else (if str_eq a "none" then no_algorithm else reno)))))

unfoldable pub to_string : ℕ → String
to_string a =
    if a == reno
    then "reno"
    else (if a == cubic
        then "cubic"
        else (if a == bbr
            then "bbr"
            else (if a == scream then "scream" else (if a == gcc then "gcc" else "none"))))

-- Each of the six algorithms is read back from its name.
algorithm_from_string-to_string : (a : ℕ) → a < 6 → algorithm_from_string (to_string a) ≡ a
unfolding algorithm_from_string to_string
algorithm_from_string-to_string zero h = refl
algorithm_from_string-to_string (suc zero) h = refl
algorithm_from_string-to_string (suc (suc zero)) h = refl
algorithm_from_string-to_string (suc (suc (suc zero))) h = refl
algorithm_from_string-to_string (suc (suc (suc (suc zero)))) h = refl
algorithm_from_string-to_string (suc (suc (suc (suc (suc zero))))) h = refl
algorithm_from_string-to_string (suc (suc (suc (suc (suc (suc a)))))) h = absurd (omega arith)

-- For every text: either the name of what is read from it is the text itself, or what is read from
-- it is Reno.
to_string-algorithm_from_string :
    (s : String) → (to_string (algorithm_from_string s) ≡ s) ⊎ (algorithm_from_string s ≡ reno)
unfolding algorithm_from_string to_string
to_string-algorithm_from_string s =
    ground
      (arith, eq_iff s "cubic", eq_iff s "bbr", eq_iff s "scream", eq_iff s "gcc", eq_iff s "none")
