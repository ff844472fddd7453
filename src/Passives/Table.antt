-- ===== src/Passives/Table.antt =====
-- The tables of hardware/8ch-old/source_passives.py: what every passive has to be, and the parts
-- that are specified by hand.
use thermocouple.Prelude.{none, some, [], ◌∷◌, ◌++◌, List, Text, codes}
use thermocouple.Passives.Data.{Need, Manual, resistor, capacitor, c0805, c1210}

unfoldable pub resistors : List (Text × Need)
resistors =
    (codes "0R", resistor 0 none none none)
    ∷ (codes "22R", resistor 22 (some 50000) none none)
    ∷ (codes "33R", resistor 33 (some 50000) none none)
    ∷ (codes "100R", resistor 100 (some 50000) none none)
    ∷ (
      codes "100R 0.1%",
      resistor 100 (some 1000) none (
          some (
            (codes "TC input filter matched pair - CMRR depends on the two legs "
              ++ (codes "being equal")))),
    )
    ∷ (
      codes "120R 1%",
      resistor 120 (some 10000) none (some (codes "RS-485 end-of-line termination")),
    )
    ∷ (codes "220R", resistor 220 (some 50000) none none)
    ∷ (codes "680R 1%", resistor 680 (some 10000) none none)
    ∷ (codes "4.7k 0.25W", resistor 4700 (some 50000) (some 250000) none)
    ∷ (codes "10k", resistor 10000 (some 50000) none none)
    ∷ (
      codes "22k",
      resistor 22000 none none (
          some (
            (codes "run-permit read-back divider, lower leg; with R53 (100k) it "
              ++ (codes "puts ~4.3 V on PC2 from 24 V")))),
    )
    ∷ (codes "2k2", resistor 2200 (some 50000) none none)
    ∷ (codes "100k", resistor 100000 (some 50000) none none)
    ∷ (
      codes "41.2k 1%",
      resistor 41200 (some 10000) none (some (codes "LM5164 on-time resistor - sets 303 kHz")),
    )
    ∷ (
      codes "158k 1%",
      resistor 158000 (some 10000) none
          (some (codes "feedback divider upper - directly sets the 5 V rail")),
    )
    ∷ (
      codes "49.9k 1%",
      resistor 49900 (some 10000) none
          (some (codes "feedback divider lower - directly sets the 5 V rail")),
    )
    ∷ (
      codes "150k 1%",
      resistor 150000 (some 10000) none (
          some (
            (codes "Type-3 ripple injection - too large and the converter loses "
              ++ (codes "the ripple it needs to stay stable")))),
    )
    ∷ (
      codes "33.2k 1%",
      resistor 33200 (some 10000) none
          (some (codes "EN/UVLO divider upper - sets the 6.48 V release")),
    )
    ∷ (codes "10k 1%", resistor 10000 (some 10000) none (some (codes "EN/UVLO divider lower")))
    ∷ []

unfoldable pub capacitors : List (Text × Need)
capacitors =
    (
      codes "100n X7R 50V",
      capacitor c0805 100000 50000 (some (codes "X7R")) (some 100000)
          (some (
            (codes "TC differential filter - dielectric stability is part of the "
              ++ (codes "measurement"))))
          (some (
            (codes "Was specified C0G until 2026-09-08: 100 nF C0G does not "
              ++ (codes "exist in 0805 (0 in stock, any maker; available from 1206 "
                  ++ (codes "up, which the frozen REV A0 board cannot take).  Acceptable "
                      ++ (codes "here because the capacitor sits across T+/T- with "
                          ++ (codes "essentially no DC bias, so X7R's voltage coefficient does "
                              ++ (codes
                                    "not apply, and the unit is in a panel 50 m from the engine, "
                                  ++ (codes
                                        "so X7R's piezoelectric response has nothing to excite it "
                                      ++ (codes "(docs/decisions/0009).")))))))))),
    )
    ∷ (
      codes "10n C0G 50V",
      capacitor c0805 10000 50000 (some (codes "C0G")) none (some (codes "TC common-mode filter"))
          none,
    )
    ∷ (
      codes "22p C0G 50V",
      capacitor c0805 22 50000 (some (codes "C0G")) none
          (some (
            (codes "Y1 crystal load capacitor - the load\n                       "
              ++ (codes "            capacitance sets the oscillator\n                "
                  ++ (codes "                   frequency, so C0G is not optional here")))))
          none,
    )
    ∷ (codes "100n X7R", capacitor c0805 100000 16000 (some (codes "X7R")) none none none)
    ∷ (codes "10n X7R", capacitor c0805 10000 16000 (some (codes "X7R")) none none none)
    ∷ (codes "1u X7R", capacitor c0805 1000000 16000 (some (codes "X7R")) none none none)
    ∷ (
      codes "4.7u X7R 16V",
      capacitor c0805 4700000 16000 (some (codes "X7R")) none
          (some (codes "LDO output bulk for the whole sensor island")) none,
    )
    ∷ (codes "2.2u 50V X7R", capacitor c0805 2200000 50000 (some (codes "X7R")) none none none)
    ∷ (codes "10u 10V", capacitor c0805 10000000 10000 none none none none)
    ∷ (codes "10u 10V X7R", capacitor c0805 10000000 10000 (some (codes "X7R")) none none none)
    ∷ (codes "10u X7R", capacitor c0805 10000000 16000 (some (codes "X7R")) none none none)
    ∷ (
      codes "4.7u 100V X7R",
      capacitor c1210 4700000 100000 (some (codes "X7R")) none
          (some (
            (codes "buck input bypass - TI asks for 2 x the max input voltage "
              ++ (codes "because of ceramic DC bias loss"))))
          none,
    )
    ∷ (
      codes "22u 25V X7R",
      capacitor c1210 22000000 25000 (some (codes "X7R")) none
          (some (codes "buck output capacitor")) none,
    )
    ∷ (
      codes "2.2n 50V X7R",
      capacitor c0805 2200 50000 (some (codes "X7R")) none
          (some (codes "bootstrap - the datasheet fixes this at 2.2 nF, 1.5-2.5 nF absolute")) none,
    )
    ∷ (
      codes "3.3n 50V X7R",
      capacitor c0805 3300 50000 (some (codes "X7R")) none (some (codes "Type-3 ripple injection"))
          none,
    )
    ∷ (
      codes "220p C0G 50V",
      capacitor c0805 220 50000 (some (codes "C0G")) none
          (some (
            (codes "ripple coupling into FB - C0G because the part must not lose "
              ++ (codes "value under DC bias"))))
          none,
    )
    ∷ []

-- REQUIREMENTS.
unfoldable pub requirements : List (Text × Need)
unfolding resistors capacitors
requirements = resistors ++ capacitors

-- MANUAL.
unfoldable pub manual : List (Text × Manual)
manual =
    (
      codes "47u 50V",
      record {
        footprint = codes "Capacitor_THT:CP_Radial_D6.3mm_P2.50mm";
        mpn = codes "EEUFR1H470";
        manufacturer = codes "Panasonic";
        note =
            (codes "Through-hole radial electrolytic, 47uF 50V, 6.3 mm, 105 "
              ++ (codes "degC, low ESR. The parametric search covers surface-mount "
                  ++ (codes "parts; this is the 24 V bulk reservoir and is fitted by "
                      ++ (codes "hand."))));
      },
    )
    ∷ (
      codes "22u 100V",
      record {
        footprint = codes "Capacitor_THT:CP_Radial_D8.0mm_P3.50mm";
        mpn = codes "EEUFC2A220";
        manufacturer = codes "Panasonic";
        note =
            (codes "Through-hole radial electrolytic, 22uF 100V, 8 mm, 105 degC. "
              ++ (codes "Replaces the 47uF 50V part: the supply is a battery and 50 V "
                  ++ (codes "does not survive a 58 V load dump. The value dropped because "
                      ++ (codes "this capacitor was never ride-through - 47uF buys 5.7 ms "
                          ++ (codes "(CALCULATIONS.md section 2). Its job now is bulk and "
                              ++ (codes
                                  "parallel damping for the 50 m feed, which 22uF does."))))));
      },
    )
    ∷ (
      codes "10k LCD CONTRAST",
      record {
        footprint = codes "Potentiometer_Bourns_3296W_Vertical";
        mpn = codes "3296W-1-103LF";
        manufacturer = codes "Bourns";
        note =
            (codes "25-turn cermet trimmer, 10k. Set once at commissioning for "
              ++ (codes "LCD contrast; not a parametric search candidate."));
      },
    )
    ∷ []
