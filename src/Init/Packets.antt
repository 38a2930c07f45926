-- ===== src/Init/Packets.antt =====
-- The packets of src/s4_init.cpp: the two LED dumps, the wake packet and the commands.
use s4_mk1_usb2midi.Common.{ℕ, List, [], ◌∷◌, ◌++◌, map, ◌≡◌, refl}

-- All LEDs off.
pub led_dump_a : List (List ℕ)
led_dump_a =
    (0x00 ∷ 0x00 ∷ 0x01 ∷ 0x00 ∷ 0x02 ∷ 0x00 ∷ 0x03 ∷ 0x00 ∷ 0x04 ∷ 0x00 ∷ 0x05 ∷ 0x00 ∷ 0x06 ∷ 0x00
      ∷ 0x07 ∷ 0x00 ∷ 0x0a ∷ 0x00 ∷ 0x0b ∷ 0x00 ∷ 0x0c ∷ 0x00 ∷ 0x0d ∷ 0x1f ∷ 0x0e ∷ 0x00 ∷ 0x0f
      ∷ 0x00 ∷ 0x10 ∷ 0x00 ∷ 0x11 ∷ 0x00 ∷ [])
    ∷ (0x12 ∷ 0x00 ∷ 0x13 ∷ 0x00 ∷ 0x14 ∷ 0x00 ∷ 0x15 ∷ 0x00 ∷ 0x16 ∷ 0x00 ∷ 0x17 ∷ 0x00 ∷ 0x18
        ∷ 0x00 ∷ 0x19 ∷ 0x00 ∷ 0x1a ∷ 0x00 ∷ 0x1b ∷ 0x00 ∷ 0x1c ∷ 0x00 ∷ 0x1d ∷ 0x00 ∷ 0x1e ∷ 0x00
        ∷ 0x1f ∷ 0x00 ∷ 0x20 ∷ 0x00 ∷ 0x21 ∷ 0x00 ∷ [])
    ∷ (0x22 ∷ 0x00 ∷ 0x23 ∷ 0x00 ∷ 0x24 ∷ 0x00 ∷ 0x25 ∷ 0x00 ∷ 0x26 ∷ 0x00 ∷ 0x27 ∷ 0x00 ∷ 0x2c
        ∷ 0x00 ∷ 0x2d ∷ 0x00 ∷ 0x2e ∷ 0x00 ∷ 0x2f ∷ 0x00 ∷ 0x30 ∷ 0x00 ∷ 0x31 ∷ 0x00 ∷ 0x32 ∷ 0x00
        ∷ 0x33 ∷ 0x00 ∷ 0x34 ∷ 0x00 ∷ 0x35 ∷ 0x00 ∷ [])
    ∷ (0x36 ∷ 0x00 ∷ 0x37 ∷ 0x00 ∷ 0x38 ∷ 0x00 ∷ 0x39 ∷ 0x00 ∷ 0x3a ∷ 0x00 ∷ 0x3b ∷ 0x00 ∷ 0x3c
        ∷ 0x00 ∷ 0x3d ∷ 0x00 ∷ 0x3e ∷ 0x00 ∷ 0x3f ∷ 0x00 ∷ 0x40 ∷ 0x00 ∷ 0x41 ∷ 0x00 ∷ 0x42 ∷ 0x00
        ∷ 0x43 ∷ 0x00 ∷ 0x44 ∷ 0x00 ∷ 0x45 ∷ 0x00 ∷ [])
    ∷ (0x46 ∷ 0x00 ∷ 0x47 ∷ 0x00 ∷ 0x48 ∷ 0x00 ∷ 0x49 ∷ 0x00 ∷ 0x4a ∷ 0x00 ∷ 0x4b ∷ 0x00 ∷ 0x4c
        ∷ 0x00 ∷ 0x4d ∷ 0x00 ∷ 0x4e ∷ 0x00 ∷ 0x4f ∷ 0x00 ∷ 0x51 ∷ 0x00 ∷ 0x52 ∷ 0x00 ∷ 0x53 ∷ 0x00
        ∷ 0x54 ∷ 0x00 ∷ 0x55 ∷ 0x00 ∷ 0x56 ∷ 0x00 ∷ [])
    ∷ (0x57 ∷ 0x00 ∷ 0x59 ∷ 0x00 ∷ 0x5a ∷ 0x00 ∷ 0x5b ∷ 0x00 ∷ 0x5c ∷ 0x00 ∷ 0x5d ∷ 0x00 ∷ 0x5e
        ∷ 0x00 ∷ 0x5f ∷ 0x00 ∷ 0x61 ∷ 0x00 ∷ 0x62 ∷ 0x00 ∷ 0x63 ∷ 0x00 ∷ 0x64 ∷ 0x00 ∷ 0x65 ∷ 0x00
        ∷ 0x66 ∷ 0x00 ∷ 0x67 ∷ 0x00 ∷ 0x69 ∷ 0x00 ∷ [])
    ∷ (0x6a ∷ 0x00 ∷ 0x6b ∷ 0x00 ∷ 0x6c ∷ 0x00 ∷ 0x6d ∷ 0x00 ∷ 0x6e ∷ 0x00 ∷ 0x6f ∷ 0x00 ∷ 0x70
        ∷ 0x00 ∷ 0x71 ∷ 0x00 ∷ 0x72 ∷ 0x00 ∷ 0x73 ∷ 0x00 ∷ 0x74 ∷ 0x00 ∷ 0x75 ∷ 0x00 ∷ 0x76 ∷ 0x00
        ∷ 0x77 ∷ 0x00 ∷ 0x78 ∷ 0x00 ∷ 0x79 ∷ 0x00 ∷ [])
    ∷ (0x7a ∷ 0x00 ∷ 0x7b ∷ 0x00 ∷ 0x7c ∷ 0x00 ∷ 0x7d ∷ 0x00 ∷ 0x7e ∷ 0x00 ∷ 0x7f ∷ 0x00 ∷ 0x81
        ∷ 0x00 ∷ 0x82 ∷ 0x00 ∷ 0x83 ∷ 0x00 ∷ 0x84 ∷ 0x00 ∷ 0x85 ∷ 0x00 ∷ 0x88 ∷ 0x1f ∷ 0x89 ∷ 0x1f
        ∷ 0x8a ∷ 0x1f ∷ 0x8b ∷ 0x1f ∷ 0x8c ∷ 0x1f ∷ [])
    ∷ (0x8d ∷ 0x1f ∷ 0x8e ∷ 0x1f ∷ 0x8f ∷ 0x1f ∷ 0x90 ∷ 0x00 ∷ 0x91 ∷ 0x00 ∷ 0x92 ∷ 0x00 ∷ 0x93
        ∷ 0x00 ∷ 0x94 ∷ 0x00 ∷ 0x95 ∷ 0x00 ∷ 0x96 ∷ 0x00 ∷ 0x97 ∷ 0x00 ∷ 0x99 ∷ 0x00 ∷ 0x9a ∷ 0x00
        ∷ 0x9b ∷ 0x00 ∷ 0x9c ∷ 0x00 ∷ 0x9d ∷ 0x00 ∷ [])
    ∷ (0x9e ∷ 0x00 ∷ 0x9f ∷ 0x00 ∷ 0xa0 ∷ 0x00 ∷ 0xa1 ∷ 0x00 ∷ 0xa2 ∷ 0x00 ∷ 0xa3 ∷ 0x00 ∷ 0xa4
        ∷ 0x00 ∷ 0xa5 ∷ 0x00 ∷ 0xa6 ∷ 0x00 ∷ 0xa7 ∷ 0x00 ∷ 0xa8 ∷ 0x00 ∷ 0xa9 ∷ 0x00 ∷ 0xaa ∷ 0x00
        ∷ 0xab ∷ 0x00 ∷ 0xac ∷ 0x00 ∷ 0xad ∷ 0x00 ∷ [])
    ∷ (0xae ∷ 0x00 ∷ 0xaf ∷ 0x00 ∷ 0xb4 ∷ 0x00 ∷ 0xb5 ∷ 0x00 ∷ 0xb6 ∷ 0x00 ∷ 0xb7 ∷ 0x00 ∷ 0xb8
        ∷ 0x00 ∷ 0xb9 ∷ 0x00 ∷ 0xba ∷ 0x00 ∷ 0xbb ∷ 0x00 ∷ 0xbc ∷ 0x00 ∷ 0xbd ∷ 0x00 ∷ 0xbe ∷ 0x00
        ∷ 0xbf ∷ 0x00 ∷ 0xff ∷ 0xaa ∷ 0xff ∷ 0xaa ∷ [])
    ∷ []

-- The lit state of the start.
pub led_dump_b : List (List ℕ)
led_dump_b =
    (0x00 ∷ 0x1f ∷ 0x01 ∷ 0x02 ∷ 0x02 ∷ 0x1f ∷ 0x03 ∷ 0x02 ∷ 0x04 ∷ 0x02 ∷ 0x05 ∷ 0x1f ∷ 0x06 ∷ 0x02
      ∷ 0x07 ∷ 0x1f ∷ 0x0a ∷ 0x02 ∷ 0x0b ∷ 0x02 ∷ 0x0c ∷ 0x1f ∷ 0x0d ∷ 0x1f ∷ 0x0e ∷ 0x1f ∷ 0x0f
      ∷ 0x02 ∷ 0x10 ∷ 0x02 ∷ 0x11 ∷ 0x02 ∷ [])
    ∷ (0x12 ∷ 0x02 ∷ 0x13 ∷ 0x02 ∷ 0x14 ∷ 0x02 ∷ 0x15 ∷ 0x02 ∷ 0x16 ∷ 0x02 ∷ 0x17 ∷ 0x02 ∷ 0x18
        ∷ 0x02 ∷ 0x19 ∷ 0x02 ∷ 0x1a ∷ 0x02 ∷ 0x1b ∷ 0x02 ∷ 0x1c ∷ 0x02 ∷ 0x1d ∷ 0x02 ∷ 0x1e ∷ 0x02
        ∷ 0x1f ∷ 0x02 ∷ 0x20 ∷ 0x02 ∷ 0x21 ∷ 0x02 ∷ [])
    ∷ (0x22 ∷ 0x02 ∷ 0x23 ∷ 0x1f ∷ 0x24 ∷ 0x02 ∷ 0x25 ∷ 0x1f ∷ 0x26 ∷ 0x10 ∷ 0x27 ∷ 0x10 ∷ 0x2c
        ∷ 0x02 ∷ 0x2d ∷ 0x02 ∷ 0x2e ∷ 0x02 ∷ 0x2f ∷ 0x02 ∷ 0x30 ∷ 0x00 ∷ 0x31 ∷ 0x00 ∷ 0x32 ∷ 0x00
        ∷ 0x33 ∷ 0x00 ∷ 0x34 ∷ 0x00 ∷ 0x35 ∷ 0x00 ∷ [])
    ∷ (0x36 ∷ 0x00 ∷ 0x37 ∷ 0x00 ∷ 0x38 ∷ 0x00 ∷ 0x39 ∷ 0x10 ∷ 0x3a ∷ 0x10 ∷ 0x3b ∷ 0x10 ∷ 0x3c
        ∷ 0x00 ∷ 0x3d ∷ 0x10 ∷ 0x3e ∷ 0x00 ∷ 0x3f ∷ 0x00 ∷ 0x40 ∷ 0x02 ∷ 0x41 ∷ 0x02 ∷ 0x42 ∷ 0x02
        ∷ 0x43 ∷ 0x02 ∷ 0x44 ∷ 0x02 ∷ 0x45 ∷ 0x02 ∷ [])
    ∷ (0x46 ∷ 0x02 ∷ 0x47 ∷ 0x02 ∷ 0x48 ∷ 0x02 ∷ 0x49 ∷ 0x02 ∷ 0x4a ∷ 0x02 ∷ 0x4b ∷ 0x02 ∷ 0x4c
        ∷ 0x02 ∷ 0x4d ∷ 0x02 ∷ 0x4e ∷ 0x02 ∷ 0x4f ∷ 0x02 ∷ 0x51 ∷ 0x00 ∷ 0x52 ∷ 0x00 ∷ 0x53 ∷ 0x00
        ∷ 0x54 ∷ 0x00 ∷ 0x55 ∷ 0x00 ∷ 0x56 ∷ 0x00 ∷ [])
    ∷ (0x57 ∷ 0x00 ∷ 0x59 ∷ 0x00 ∷ 0x5a ∷ 0x00 ∷ 0x5b ∷ 0x00 ∷ 0x5c ∷ 0x00 ∷ 0x5d ∷ 0x00 ∷ 0x5e
        ∷ 0x00 ∷ 0x5f ∷ 0x00 ∷ 0x61 ∷ 0x00 ∷ 0x62 ∷ 0x00 ∷ 0x63 ∷ 0x00 ∷ 0x64 ∷ 0x00 ∷ 0x65 ∷ 0x00
        ∷ 0x66 ∷ 0x00 ∷ 0x67 ∷ 0x00 ∷ 0x69 ∷ 0x00 ∷ [])
    ∷ (0x6a ∷ 0x00 ∷ 0x6b ∷ 0x00 ∷ 0x6c ∷ 0x00 ∷ 0x6d ∷ 0x00 ∷ 0x6e ∷ 0x00 ∷ 0x6f ∷ 0x00 ∷ 0x70
        ∷ 0x1f ∷ 0x71 ∷ 0x1f ∷ 0x72 ∷ 0x06 ∷ 0x73 ∷ 0x00 ∷ 0x74 ∷ 0x01 ∷ 0x75 ∷ 0x01 ∷ 0x76 ∷ 0x01
        ∷ 0x77 ∷ 0x10 ∷ 0x78 ∷ 0x02 ∷ 0x79 ∷ 0x02 ∷ [])
    ∷ (0x7a ∷ 0x06 ∷ 0x7b ∷ 0x00 ∷ 0x7c ∷ 0x01 ∷ 0x7d ∷ 0x01 ∷ 0x7e ∷ 0x01 ∷ 0x7f ∷ 0x01 ∷ 0x81
        ∷ 0x02 ∷ 0x82 ∷ 0x02 ∷ 0x83 ∷ 0x02 ∷ 0x84 ∷ 0x02 ∷ 0x85 ∷ 0x1f ∷ 0x88 ∷ 0x1f ∷ 0x89 ∷ 0x1f
        ∷ 0x8a ∷ 0x1f ∷ 0x8b ∷ 0x1f ∷ 0x8c ∷ 0x1f ∷ [])
    ∷ (0x8d ∷ 0x1f ∷ 0x8e ∷ 0x1f ∷ 0x8f ∷ 0x1f ∷ 0x90 ∷ 0x1f ∷ 0x91 ∷ 0x02 ∷ 0x92 ∷ 0x1f ∷ 0x93
        ∷ 0x02 ∷ 0x94 ∷ 0x02 ∷ 0x95 ∷ 0x1f ∷ 0x96 ∷ 0x02 ∷ 0x97 ∷ 0x02 ∷ 0x99 ∷ 0x02 ∷ 0x9a ∷ 0x02
        ∷ 0x9b ∷ 0x02 ∷ 0x9c ∷ 0x02 ∷ 0x9d ∷ 0x1f ∷ [])
    ∷ (0x9e ∷ 0x02 ∷ 0x9f ∷ 0x02 ∷ 0xa0 ∷ 0x00 ∷ 0xa1 ∷ 0x10 ∷ 0xa2 ∷ 0x10 ∷ 0xa3 ∷ 0x10 ∷ 0xa4
        ∷ 0x00 ∷ 0xa5 ∷ 0x10 ∷ 0xa6 ∷ 0x00 ∷ 0xa7 ∷ 0x00 ∷ 0xa8 ∷ 0x00 ∷ 0xa9 ∷ 0x00 ∷ 0xaa ∷ 0x00
        ∷ 0xab ∷ 0x00 ∷ 0xac ∷ 0x00 ∷ 0xad ∷ 0x00 ∷ [])
    ∷ (0xae ∷ 0x00 ∷ 0xaf ∷ 0x00 ∷ 0xb4 ∷ 0x02 ∷ 0xb5 ∷ 0x02 ∷ 0xb6 ∷ 0x02 ∷ 0xb7 ∷ 0x02 ∷ 0xb8
        ∷ 0x08 ∷ 0xb9 ∷ 0x08 ∷ 0xba ∷ 0x02 ∷ 0xbb ∷ 0x1f ∷ 0xbc ∷ 0x02 ∷ 0xbd ∷ 0x1f ∷ 0xbe ∷ 0x01
        ∷ 0xbf ∷ 0x10 ∷ 0xff ∷ 0xaa ∷ 0xff ∷ 0xaa ∷ [])
    ∷ []

pub wake_packet : List ℕ
wake_packet =
    0x0d ∷ 0x1f ∷ 0x88 ∷ 0x1f ∷ 0x89 ∷ 0x1f ∷ 0x8a ∷ 0x1f ∷ 0x8b ∷ 0x1f ∷ 0x8c ∷ 0x1f ∷ 0x8d ∷ 0x1f
    ∷ 0x8e ∷ 0x1f ∷ 0x8f ∷ 0x1f ∷ 0xff ∷ 0xaa ∷ 0xff ∷ 0xaa ∷ 0xff ∷ 0xaa ∷ 0xff ∷ 0xaa ∷ 0xff
    ∷ 0xaa ∷ 0xff ∷ 0xaa ∷ 0xff ∷ 0xaa ∷ []

-- What s4_mk1_init does, one call after the other.
pub data InitStep : Type 0 where
  command led : List ℕ → InitStep
  start_drain stop_drain : InitStep

-- Phases 1 and 2.
wake_commands : List InitStep
wake_commands =
    command (0x01 ∷ [])
    ∷ command (0x01 ∷ 0x00 ∷ [])
    ∷ command (0x14 ∷ 0x00 ∷ [])
    ∷ command (0x14 ∷ 0x01 ∷ [])
    ∷ command (0x14 ∷ 0x02 ∷ [])
    ∷ command (0x14 ∷ 0x03 ∷ [])
    ∷ command (0x14 ∷ 0x04 ∷ [])
    ∷ command (0x14 ∷ 0x05 ∷ [])
    ∷ command (0x0b ∷ 0xff ∷ 0x04 ∷ 0x05 ∷ [])
    ∷ []

-- Phases 4 and 5.
unlock_commands : List InitStep
unlock_commands =
    command (0x01 ∷ 0x00 ∷ [])
    ∷ command (0x01 ∷ 0x78 ∷ [])
    ∷ command (0x09 ∷ 0x01 ∷ 0x02 ∷ 0x70 ∷ 0x00 ∷ 0x01 ∷ [])
    ∷ command (0x01 ∷ 0x00 ∷ [])
    ∷ command (0x09 ∷ 0x01 ∷ 0x02 ∷ 0x70 ∷ 0x00 ∷ 0x01 ∷ [])
    ∷ command (0x09 ∷ 0xff ∷ 0x00 ∷ 0x00 ∷ 0x00 ∷ 0x01 ∷ [])
    ∷ command (0x01 ∷ 0x00 ∷ [])
    ∷ command (0x09 ∷ 0x01 ∷ 0x02 ∷ 0x70 ∷ 0x00 ∷ 0x01 ∷ [])
    ∷ []

-- Phases 6 and 7 and the end of the drain.
unfoldable pub led_phases : List InitStep
unfolding led_dump_a led_dump_b
led_phases = map led led_dump_a ++ map led led_dump_b ++ stop_drain ∷ []

unfoldable pub init_steps : List InitStep
unfolding wake_commands unlock_commands led_phases wake_packet
init_steps = wake_commands ++ led wake_packet ∷ (unlock_commands ++ start_drain ∷ led_phases)

pub led_phases_lem : led_phases ≡ map led led_dump_a ++ (map led led_dump_b ++ stop_drain ∷ [])
unfolding led_phases
led_phases_lem = refl
