-- ===== src/Boards/Keypad.antt =====
-- The controller of hardware/family/gen/c_mcu.py, with its display and keys.
use thermocouple.Prelude.{ℕ, List, [], ◌∷◌, ◌++◌, Text, codes, decimal, if◌then◌else◌, ◌+◌}
use thermocouple.Boards.{Board, nc}
use thermocouple.Boards.Items.{Item, part, resistor, capacitor, test_point, r0805, r1206, c0805}

unfoldable pub controller : Board → List Item
unfolding c0805 capacitor part r0805 resistor test_point
controller b =
    (part (codes "U501") (codes "MCU_Microchip_ATmega:ATmega1284P-A") (codes "ATmega1284P-AU")
      b.mcu_pins (codes "Package_QFP:TQFP-44_10x10mm_P0.8mm") (codes "ATMEGA1284P-AU")
      (codes "C33575") (codes "Microchip") [])
    ∷ (capacitor (codes "C503") (codes "100n") (codes "+5V") (codes "GND")
        (codes "CC0805KRX7R9BB104") (codes "C49678") c0805 (codes "VCC pin 5") [])
    ∷ (capacitor (codes "C504") (codes "100n") (codes "+5V") (codes "GND")
        (codes "CC0805KRX7R9BB104") (codes "C49678") c0805 (codes "VCC pin 17") [])
    ∷ (capacitor (codes "C505") (codes "100n") (codes "+5V") (codes "GND")
        (codes "CC0805KRX7R9BB104") (codes "C49678") c0805 (codes "VCC pin 38") [])
    ∷ (capacitor (codes "C506") (codes "100n") (codes "+5V") (codes "GND")
        (codes "CC0805KRX7R9BB104") (codes "C49678") c0805 (codes "AVCC") [])
    ∷ (capacitor (codes "C507") (codes "100n") (codes "AREF") (codes "GND")
        (codes "CC0805KRX7R9BB104") (codes "C49678") c0805 [] [])
    ∷ (resistor (codes "R501") (codes "10k") (codes "+5V") (codes "RESET_N")
        (codes "0805W8F1002T5E") (codes "C17414") r0805 [] [])
    ∷ (capacitor (codes "C508") (codes "10n") (codes "RESET_N") (codes "GND")
        (codes "CL21B103KBANNNC") (codes "C1710") c0805 [] [])
    ∷ (part (codes "Y501") (codes "Device:Crystal") (codes "8MHz")
        ((codes "1", codes "XTAL1") ∷ (codes "2", codes "XTAL2") ∷ [])
        (codes "Crystal:Crystal_SMD_HC49-SD") (codes "X49SM8MSD2SC") (codes "C12674")
        (codes "Yangxing Tech") [])
    ∷ (capacitor (codes "C501") (codes "22p C0G") (codes "XTAL1") (codes "GND")
        (codes "CL21C220JBANNNC") (codes "C1804") c0805 [] [])
    ∷ (capacitor (codes "C502") (codes "22p C0G") (codes "XTAL2") (codes "GND")
        (codes "CL21C220JBANNNC") (codes "C1804") c0805 [] [])
    ∷ (part (codes "J501") (codes "Connector_Generic:Conn_02x03_Odd_Even") (codes "AVR ISP")
        ((codes "1", codes "MISO")
          ∷ (codes "2", codes "+5V")
          ∷ (codes "3", codes "SCK")
          ∷ (codes "4", codes "MOSI")
          ∷ (codes "5", codes "RESET_N")
          ∷ (codes "6", codes "GND")
          ∷ [])
        (codes "Connector_PinHeader_2.54mm:PinHeader_2x03_P2.54mm_Vertical") (codes "PZ254V-12-6P")
        (codes "C492420") (codes "XKB Connection") (codes "outside the LCD shadow"))
    ∷ (test_point (codes "TP501") (codes "RESET_N"))
    ∷ []

unfoldable pub display : List Item
unfolding nc part r1206 resistor
display =
    (part (codes "J502") (codes "Connector_Generic:Conn_01x16") (codes "LCD 20x4 HEADER")
      ((codes "1", codes "GND")
        ∷ (codes "2", codes "+5V")
        ∷ (codes "3", codes "LCD_VO")
        ∷ (codes "4", codes "LCD_RS")
        ∷ (codes "5", codes "GND")
        ∷ (codes "6", codes "LCD_E")
        ∷ (codes "7", nc)
        ∷ (codes "8", nc)
        ∷ (codes "9", nc)
        ∷ (codes "10", nc)
        ∷ (codes "11", codes "LCD_D4")
        ∷ (codes "12", codes "LCD_D5")
        ∷ (codes "13", codes "LCD_D6")
        ∷ (codes "14", codes "LCD_D7")
        ∷ (codes "15", codes "LCD_LED_A")
        ∷ (codes "16", codes "GND")
        ∷ [])
      (codes "Connector_PinHeader_2.54mm:PinHeader_1x16_P2.54mm_Vertical")
      (codes "ZX-PZ2.54-1-16PZZ") (codes "C7501270") (codes "XKB Connection") [])
    ∷ (part (codes "RV501") (codes "Device:R_Potentiometer") (codes "10k CONTRAST")
        ((codes "1", codes "GND") ∷ (codes "2", codes "LCD_VO") ∷ (codes "3", codes "+5V") ∷ [])
        (codes "Potentiometer_THT:Potentiometer_Bourns_3296W_Vertical") (codes "3296W-1-103")
        (codes "C118954") (codes "BOCHEN") (codes "outside the LCD shadow; 3296W outline (0036)"))
    ∷ (resistor (codes "R502") (codes "22R") (codes "+5V") (codes "LCD_LED_A")
        (codes "1206W4F220JT5E") (codes "C17958") r1206
        (codes "backlight ~68 mA at Vf 3.5 V; adjust to the bought module") [])
    ∷ (part (codes "J503") (codes "Connector_Generic:Conn_01x06") (codes "PANEL BUTTONS")
        ((codes "1", codes "BTN_UP")
          ∷ (codes "2", codes "BTN_DOWN")
          ∷ (codes "3", codes "BTN_SET")
          ∷ (codes "4", codes "BTN_ESC")
          ∷ (codes "5", codes "BTN_ACK")
          ∷ (codes "6", codes "GND")
          ∷ [])
        (codes "Connector_JST:JST_XH_B6B-XH-A_1x06_P2.50mm_Vertical") (codes "B6B-XH-A(LF)(SN)")
        (codes "C144397") (codes "JST")
        (codes "panel buttons on a cable, in parallel with SW501-SW505 (0034 D2)"))
    ∷ []

-- The keys on the board, SW501 and following.
unfoldable pub keys_from : ℕ → List Text → List Item
unfolding part decimal
keys_from i [] = []
keys_from i (n ∷ ns) =
    part (codes "SW" ++ decimal i) (codes "Switch:SW_Push") n
      ((codes "1", codes "BTN_" ++ n) ∷ (codes "2", codes "GND") ∷ [])
      (codes "Button_Switch_THT:SW_PUSH_6mm") (codes "ZX-QC66-9.5CJ") (codes "C7470135")
      (codes "Megastar")
      (codes "6x6 THT, 9.5 mm: bench use; the panel buttons go on J503 (0034 D2)")
    ∷ keys_from (i + 1) ns

-- The diodes with which ESC pulls other keys low, D501 and following.
unfoldable pub diodes_from : ℕ → List Text → List Item
unfolding part decimal
diodes_from i [] = []
diodes_from i (n ∷ ns) =
    part (codes "D" ++ decimal i) (codes "Device:D") (codes "1N4148W")
      ((codes "1", codes "BTN_ESC") ∷ (codes "2", codes "BTN_" ++ n) ∷ [])
      (codes "Diode_SMD:D_SOD-123") (codes "1N4148W-7-F") (codes "C83528") (codes "Diodes Inc")
      (codes "ESC has no MCU pin (PD5 is SIO_WR_N, REV A4): ESC pulls UP and DOWN low together, "
        ++ codes "firmware reads UP+DOWN as ESC")
    ∷ diodes_from (i + 1) ns

unfoldable pub mcu : Board → List Item
unfolding controller display keys_from diodes_from
mcu b =
    let up_down = codes "UP" ∷ codes "DOWN" ∷ [] in
    let switches = up_down ++ (codes "SET" ∷ codes "ESC" ∷ codes "ACK" ∷ []) in
    controller b
    ++ (display
        ++ (keys_from 501 switches ++ (if b.esc_diodes then diodes_from 501 up_down else [])))
