-- ===== src/Boards/Mcu.antt =====
-- The pins of the ATmega1284P, from hardware/family/gen/boards.py.
use thermocouple.Prelude.{
  ℕ, [], ◌∷◌, List, ◌++◌, Text, codes, decimal, text_eq, if◌then◌else◌, ◌&&◌, not,
}
use thermocouple.Netlist.Lookup.{Dict, put}
use thermocouple.Netlist.Sort.{mem_text}
use thermocouple.Boards.{nc}

unfoldable pub mcu24 : Dict Text
mcu24 =
    (codes "PB0", codes "CS_ADC2")
    ∷ (codes "PB1", codes "CS_ADC3")
    ∷ (codes "PB2", codes "CS_CJ1")
    ∷ (codes "PB3", codes "RUN_PERMIT")
    ∷ (codes "PB4", codes "CS_ADC1")
    ∷ (codes "PB5", codes "MOSI")
    ∷ (codes "PB6", codes "MISO")
    ∷ (codes "PB7", codes "SCK")
    ∷ (codes "PC0", codes "CS_CJ2")
    ∷ (codes "PC1", codes "CS_CJ3")
    ∷ (codes "PC2", codes "RUN_SENSE")
    ∷ (codes "PC3", codes "CS_CJ4")
    ∷ (codes "PC4", codes "CS_CJ5")
    ∷ (codes "PC5", codes "CS_CJ6")
    ∷ (codes "PC6", codes "ALARM_DRIVE")
    ∷ (codes "PC7", codes "ALARM_SENSE")
    ∷ (codes "PD0", codes "UART_RX")
    ∷ (codes "PD1", codes "UART_TX")
    ∷ (codes "PD2", codes "BTN_UP")
    ∷ (codes "PD3", codes "BTN_DOWN")
    ∷ (codes "PD4", codes "BTN_SET")
    ∷ (codes "PD5", codes "BTN_ESC")
    ∷ (codes "PD6", codes "BTN_ACK")
    ∷ (codes "PD7", codes "RS485_DE")
    ∷ (codes "PA0", codes "LCD_RS")
    ∷ (codes "PA1", codes "LCD_E")
    ∷ (codes "PA2", codes "REFOK")
    ∷ (codes "PA3", codes "REFTEST")
    ∷ (codes "PA4", codes "LCD_D4")
    ∷ (codes "PA5", codes "LCD_D5")
    ∷ (codes "PA6", codes "LCD_D6")
    ∷ (codes "PA7", codes "LCD_D7")
    ∷ (codes "~{RESET}", codes "RESET_N")
    ∷ (codes "XTAL1", codes "XTAL1")
    ∷ (codes "XTAL2", codes "XTAL2")
    ∷ (codes "AREF", codes "AREF")
    ∷ (codes "VCC", codes "+5V")
    ∷ (codes "AVCC", codes "+5V")
    ∷ (codes "GND", codes "GND")
    ∷ []

-- The names of the selects of the converters of the cold junctions, or of such a range of names.
unfoldable pub numbered : Text → Text → List ℕ → List Text
unfolding decimal
numbered before after [] = []
numbered before after (i ∷ is) = (before ++ (decimal i ++ after)) ∷ numbered before after is

unfoldable pub cs24 : List Text
unfolding numbered
cs24 =
    codes "CS_ADC1"
    ∷ codes "CS_ADC2"
    ∷ codes "CS_ADC3"
    ∷ numbered (codes "CS_CJ") [] (1 ∷ 2 ∷ 3 ∷ 4 ∷ 5 ∷ 6 ∷ [])

unfoldable pub cs8 : List Text
cs8 = codes "CS_ADC1" ∷ codes "CS_CJ1" ∷ codes "CS_CJ2" ∷ []

-- A pin of the 8-channel board: the select of a bank that it does not have is left open.
unfoldable pub net8 : Text → Text → Text
unfolding mem_text text_eq cs24 cs8 nc
net8 pin net =
    if text_eq pin (codes "PC1")
    then codes "SIO_WR_N"
    else if mem_text net cs24 && not (mem_text net cs8)
    then nc
    else net

unfoldable pub pins8 : Dict Text → Dict Text
unfolding net8
pins8 [] = []
pins8 ((pin, net) ∷ pins) = (pin, net8 pin net) ∷ pins8 pins

unfoldable pub mcu40 : Dict Text
unfolding put mcu24 nc
mcu40 =
    let a = put (codes "PB0") (codes "CSA0") mcu24 in
    let b = put (codes "PB1") (codes "CSA1") a in
    let c = put (codes "PB2") (codes "CSA2") b in
    let d = put (codes "PB4") (codes "CS_EN") c in
    let e = put (codes "PC0") (codes "CSA3") d in
    let f = put (codes "PC1") (codes "SIO_WR_N") e in
    put (codes "PC5") nc (put (codes "PC4") nc (put (codes "PC3") nc f))
