-- ===== src/Radiotap/Layout.antt =====
-- src/rx.rs: the numbers of the radiotap fields and flags, `align_up` and `field_layout`.
use meshinator.Prelude.{
  ℕ, ◌+◌, ◌-◌, ◌%◌, ◌^◌, bit_and, Bool, not, Option, none, some, leb, ◌==◌, if◌then◌else◌,
}

abbrev pub rtap_tsft : ℕ
rtap_tsft = 0

abbrev pub rtap_flags : ℕ
rtap_flags = 1

abbrev pub rtap_rate : ℕ
rtap_rate = 2

abbrev pub rtap_channel : ℕ
rtap_channel = 3

abbrev pub rtap_fhss : ℕ
rtap_fhss = 4

abbrev pub rtap_dbm_antsignal : ℕ
rtap_dbm_antsignal = 5

abbrev pub rtap_dbm_antnoise : ℕ
rtap_dbm_antnoise = 6

abbrev pub rtap_lock_quality : ℕ
rtap_lock_quality = 7

abbrev pub rtap_tx_attenuation : ℕ
rtap_tx_attenuation = 8

abbrev pub rtap_db_tx_attenuation : ℕ
rtap_db_tx_attenuation = 9

abbrev pub rtap_dbm_tx_power : ℕ
rtap_dbm_tx_power = 10

abbrev pub rtap_antenna : ℕ
rtap_antenna = 11

abbrev pub rtap_db_antsignal : ℕ
rtap_db_antsignal = 12

abbrev pub rtap_db_antnoise : ℕ
rtap_db_antnoise = 13

abbrev pub rtap_rx_flags : ℕ
rtap_rx_flags = 14

abbrev pub rtap_tx_flags : ℕ
rtap_tx_flags = 15

abbrev pub rtap_rts_retries : ℕ
rtap_rts_retries = 16

abbrev pub rtap_data_retries : ℕ
rtap_data_retries = 17

abbrev pub rtap_mcs : ℕ
rtap_mcs = 19

abbrev pub rtap_ampdu_status : ℕ
rtap_ampdu_status = 20

abbrev pub rtap_vht : ℕ
rtap_vht = 21

abbrev pub rtap_timestamp : ℕ
rtap_timestamp = 22

abbrev pub rtap_f_fcs : ℕ
rtap_f_fcs = 0x10

abbrev pub rtap_f_badfcs : ℕ
rtap_f_badfcs = 0x40

abbrev pub rtap_mcs_have_mcs : ℕ
rtap_mcs_have_mcs = 0x02

abbrev pub rtap_mcs_have_bw : ℕ
rtap_mcs_have_bw = 0x01

-- `(x & mask) != 0`
unfoldable pub has_flag : ℕ → ℕ → Bool
has_flag x mask = not (bit_and x mask == 0)

-- `usize` has 64 bits, so `!m` is `2 ^ 64 - 1 - m`.
unfoldable pub align_up : ℕ → ℕ → ℕ
align_up v align =
    if leb align 1 then v else bit_and ((v + (align - 1)) % 2 ^ 64) (2 ^ 64 - 1 - (align - 1))

-- (align, size) of a field.
unfoldable pub field_layout : ℕ → Option (ℕ × ℕ)
field_layout field =
    if field == rtap_tsft
    then some (8, 8)
    else (if field == rtap_flags
        then some (1, 1)
        else (if field == rtap_rate
            then some (1, 1)
            else (if field == rtap_channel
                then some (2, 4)
                else (if field == rtap_fhss
                    then some (2, 2)
                    else (if field == rtap_dbm_antsignal
                        then some (1, 1)
                        else (if field == rtap_dbm_antnoise
                            then some (1, 1)
                            else (if field == rtap_lock_quality
                                then some (2, 2)
                                else (if field == rtap_tx_attenuation
                                    then some (2, 2)
                                    else (if field == rtap_db_tx_attenuation
                                        then some (2, 2)
                                        else (if field == rtap_dbm_tx_power
                                            then some (1, 1)
                                            else (if field == rtap_antenna
                                                then some (1, 1)
                                                else (if field == rtap_db_antsignal
                                                    then some (1, 1)
                                                    else (if field == rtap_db_antnoise
                                                        then some (1, 1)
                                                        else (if field == rtap_rx_flags
                                                            then some (2, 2)
                                                            else (if field == rtap_tx_flags
                                                            then some (2, 2)
                                                            else (if field == rtap_rts_retries
                                                            then some (1, 1)
                                                            else (if field == rtap_data_retries
                                                            then some (1, 1)
                                                            else (if field == rtap_mcs
                                                            then some (1, 3)
                                                            else (if field == rtap_ampdu_status
                                                            then some (4, 8)
                                                            else (if field == rtap_vht
                                                            then some (2, 12)
                                                            else (if field == rtap_timestamp
                                                            then some (8, 12)
                                                            else (none))))))))))))))))))))))
