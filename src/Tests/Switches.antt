-- ===== src/Tests/Switches.antt =====
-- The flags, of flag.c.
use sklaffkom.Base.{◌≡◌, refl, true, some, arith, pos, codes, ◌≤◌, All, inr, inl}
use sklaffkom.Libc.{print_int, print_nat, print_fuel}
use sklaffkom.Flags.{print_lines, Flags, flag_lines, saved_flags, set_flags, default_flags}
use sklaffkom.Flags.RoundTrip.{HasInt, IsBit, set_flags-saved_flags}
use sklaffkom.Flags.Turning.{turn_flag, choose, down_string}
use sklaffkom.Flags.OneCharset.{charsets, charsets-turn_flag}

-- the flags of a new user
default_flags-IsBit : All IsBit (flag_lines default_flags)
default_flags-IsBit = (
  inr refl,
  (
    inr refl,
    (
      inr refl,
      (
        inl refl,
        (
          inl refl,
          (
            inl refl,
            (
              inr refl,
              (
                inl refl,
                (
                  inl refl,
                  (
                    inr refl,
                    (
                      inl refl,
                      (
                        inl refl,
                        (
                          inr refl,
                          (
                            inl refl,
                            (
                              inl refl,
                              (
                                inl refl,
                                (
                                  inl refl,
                                  (
                                    inl refl,
                                    (
                                      inl refl,
                                      (
                                        inl refl,
                                        (
                                          inl refl,
                                          (inl refl, (inr refl, (inl refl, (inl refl, tt)))),
                                        ),
                                      ),
                                    ),
                                  ),
                                ),
                              ),
                            ),
                          ),
                        ),
                      ),
                    ),
                  ),
                ),
              ),
            ),
          ),
        ),
      ),
    ),
  ),
)

-- a flag can hold another number, of two digits here
abbrev odd_flags : Flags
odd_flags = record default_flags { utf8 = pos 12 }

odd_flags-HasInt : All HasInt (flag_lines odd_flags)
odd_flags-HasInt = (
  omega arith,
  (
    omega arith,
    (
      omega arith,
      (
        omega arith,
        (
          omega arith,
          (
            omega arith,
            (
              omega arith,
              (
                omega arith,
                (
                  omega arith,
                  (
                    omega arith,
                    (
                      omega arith,
                      (
                        omega arith,
                        (
                          omega arith,
                          (
                            omega arith,
                            (
                              omega arith,
                              (
                                omega arith,
                                (
                                  omega arith,
                                  (
                                    omega arith,
                                    (
                                      omega arith,
                                      (
                                        omega arith,
                                        (
                                          omega arith,
                                          (
                                            omega arith,
                                            (omega arith, (omega arith, (omega arith, tt))),
                                          ),
                                        ),
                                      ),
                                    ),
                                  ),
                                ),
                              ),
                            ),
                          ),
                        ),
                      ),
                    ),
                  ),
                ),
              ),
            ),
          ),
        ),
      ),
    ),
  ),
)

odd_fits : saved_flags odd_flags ≡ some (print_lines (flag_lines odd_flags))
unfolding saved_flags print_lines print_int print_nat print_fuel
odd_fits = refl

set_flags-saved_flags_example : set_flags (print_lines (flag_lines odd_flags)) ≡ some odd_flags
set_flags-saved_flags_example =
    set_flags-saved_flags odd_flags (print_lines (flag_lines odd_flags)) odd_flags-HasInt odd_fits

-- turning UTF-8 on for a new user
charsets-turn_flag_example :
    charsets (turn_flag (λ f. true) (pos 1) (codes "utf8") default_flags).1 ≤ 1
charsets-turn_flag_example =
    charsets-turn_flag (λ f. true) (pos 1) (codes "utf8") default_flags (omega arith)

utf8_turned_on : (turn_flag (λ f. true) (pos 1) (codes "UT") default_flags).1.utf8 ≡ pos 1
unfolding turn_flag choose down_string
utf8_turned_on = refl
