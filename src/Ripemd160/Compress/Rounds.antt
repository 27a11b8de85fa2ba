-- ===== src/Ripemd160/Compress/Rounds.antt =====
-- src/RIPEMD160.cpp: the word X[i] and the rotation of each of the 160 steps of `compress`, in order.
use bitcoinstats.Common.{ℕ, List, [], ◌∷◌}

abbrev pub round1 : List (ℕ × ℕ)
round1 =
    (0, 11)
    ∷ (1, 14)
    ∷ (2, 15)
    ∷ (3, 12)
    ∷ (4, 5)
    ∷ (5, 8)
    ∷ (6, 7)
    ∷ (7, 9)
    ∷ (8, 11)
    ∷ (9, 13)
    ∷ (10, 14)
    ∷ (11, 15)
    ∷ (12, 6)
    ∷ (13, 7)
    ∷ (14, 9)
    ∷ (15, 8)
    ∷ []

abbrev pub round2 : List (ℕ × ℕ)
round2 =
    (7, 7)
    ∷ (4, 6)
    ∷ (13, 8)
    ∷ (1, 13)
    ∷ (10, 11)
    ∷ (6, 9)
    ∷ (15, 7)
    ∷ (3, 15)
    ∷ (12, 7)
    ∷ (0, 12)
    ∷ (9, 15)
    ∷ (5, 9)
    ∷ (2, 11)
    ∷ (14, 7)
    ∷ (11, 13)
    ∷ (8, 12)
    ∷ []

abbrev pub round3 : List (ℕ × ℕ)
round3 =
    (3, 11)
    ∷ (10, 13)
    ∷ (14, 6)
    ∷ (4, 7)
    ∷ (9, 14)
    ∷ (15, 9)
    ∷ (8, 13)
    ∷ (1, 15)
    ∷ (2, 14)
    ∷ (7, 8)
    ∷ (0, 13)
    ∷ (6, 6)
    ∷ (13, 5)
    ∷ (11, 12)
    ∷ (5, 7)
    ∷ (12, 5)
    ∷ []

abbrev pub round4 : List (ℕ × ℕ)
round4 =
    (1, 11)
    ∷ (9, 12)
    ∷ (11, 14)
    ∷ (10, 15)
    ∷ (0, 14)
    ∷ (8, 15)
    ∷ (12, 9)
    ∷ (4, 8)
    ∷ (13, 9)
    ∷ (3, 14)
    ∷ (7, 5)
    ∷ (15, 6)
    ∷ (14, 8)
    ∷ (5, 6)
    ∷ (6, 5)
    ∷ (2, 12)
    ∷ []

abbrev pub round5 : List (ℕ × ℕ)
round5 =
    (4, 9)
    ∷ (0, 15)
    ∷ (5, 5)
    ∷ (9, 11)
    ∷ (7, 6)
    ∷ (12, 8)
    ∷ (2, 13)
    ∷ (10, 12)
    ∷ (14, 5)
    ∷ (1, 12)
    ∷ (3, 13)
    ∷ (8, 14)
    ∷ (11, 11)
    ∷ (6, 8)
    ∷ (15, 5)
    ∷ (13, 6)
    ∷ []

abbrev pub parallel1 : List (ℕ × ℕ)
parallel1 =
    (5, 8)
    ∷ (14, 9)
    ∷ (7, 9)
    ∷ (0, 11)
    ∷ (9, 13)
    ∷ (2, 15)
    ∷ (11, 15)
    ∷ (4, 5)
    ∷ (13, 7)
    ∷ (6, 7)
    ∷ (15, 8)
    ∷ (8, 11)
    ∷ (1, 14)
    ∷ (10, 14)
    ∷ (3, 12)
    ∷ (12, 6)
    ∷ []

abbrev pub parallel2 : List (ℕ × ℕ)
parallel2 =
    (6, 9)
    ∷ (11, 13)
    ∷ (3, 15)
    ∷ (7, 7)
    ∷ (0, 12)
    ∷ (13, 8)
    ∷ (5, 9)
    ∷ (10, 11)
    ∷ (14, 7)
    ∷ (15, 7)
    ∷ (8, 12)
    ∷ (12, 7)
    ∷ (4, 6)
    ∷ (9, 15)
    ∷ (1, 13)
    ∷ (2, 11)
    ∷ []

abbrev pub parallel3 : List (ℕ × ℕ)
parallel3 =
    (15, 9)
    ∷ (5, 7)
    ∷ (1, 15)
    ∷ (3, 11)
    ∷ (7, 8)
    ∷ (14, 6)
    ∷ (6, 6)
    ∷ (9, 14)
    ∷ (11, 12)
    ∷ (8, 13)
    ∷ (12, 5)
    ∷ (2, 14)
    ∷ (10, 13)
    ∷ (0, 13)
    ∷ (4, 7)
    ∷ (13, 5)
    ∷ []

abbrev pub parallel4 : List (ℕ × ℕ)
parallel4 =
    (8, 15)
    ∷ (6, 5)
    ∷ (4, 8)
    ∷ (1, 11)
    ∷ (3, 14)
    ∷ (11, 14)
    ∷ (15, 6)
    ∷ (0, 14)
    ∷ (5, 6)
    ∷ (12, 9)
    ∷ (2, 12)
    ∷ (13, 9)
    ∷ (9, 12)
    ∷ (7, 5)
    ∷ (10, 15)
    ∷ (14, 8)
    ∷ []

abbrev pub parallel5 : List (ℕ × ℕ)
parallel5 =
    (12, 8)
    ∷ (15, 5)
    ∷ (10, 12)
    ∷ (4, 9)
    ∷ (1, 12)
    ∷ (5, 5)
    ∷ (8, 14)
    ∷ (7, 6)
    ∷ (6, 8)
    ∷ (2, 13)
    ∷ (13, 6)
    ∷ (14, 5)
    ∷ (0, 15)
    ∷ (3, 13)
    ∷ (9, 11)
    ∷ (11, 11)
    ∷ []
