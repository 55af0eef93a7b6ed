-- ===== src/Main/Messages.antt =====
-- `FriendlyJoinFailureMessage`, `FriendlySyncErrorMessage` and the code of `GenerateSessionCode` in
-- client/window.cpp.
use share_note_pad.Base.{ℕ, ◌-◌, [], ◌++◌, if◌then◌else◌, length, replicate, Text, codes, text_eq}
use share_note_pad.Protocol.Json.{format_unsigned}

unfoldable pub friendly_join_failure_message : Text → Text
friendly_join_failure_message reason =
    if text_eq reason (codes "invalid_code")
    then codes "초대 코드가 올바르지 않습니다."
    else if text_eq reason (codes "blocked")
    then codes "잘못된 접속이 반복되어 이 방 접속이 잠시 차단되었습니다."
    else if text_eq reason (codes "room_full")
    then codes "방이 가득 찼습니다. ShareNotepad MVP는 2명까지만 지원합니다."
    else if text_eq reason (codes "protocol_mismatch")
    then codes "프로그램 버전 또는 통신 방식이 맞지 않습니다."
    else if text_eq reason []
    then codes "연결 실패"
    else codes "연결 실패: " ++ reason

unfoldable pub friendly_sync_error_message : Text → Text
friendly_sync_error_message reason =
    if text_eq reason (codes "connect timeout")
    then codes "연결 시간이 초과되었습니다."
    else if text_eq reason (codes "connect failed")
    then codes "연결할 수 없습니다. 같은 네트워크인지 확인하세요."
    else if text_eq reason (codes "connection closed")
    then codes "상대 연결이 종료되었습니다."
    else if text_eq reason (codes "heartbeat timeout")
    then codes "상대 응답이 없어 연결이 끊겼습니다."
    else if text_eq reason (codes "insert_too_large")
    then codes "한 번에 붙여넣는 내용이 너무 큽니다."
    else if text_eq reason (codes "document_too_large")
    then codes "문서 크기 제한을 초과했습니다."
    else if text_eq reason (codes "invalid_session")
    then codes "세션 정보가 맞지 않아 동기화를 거절했습니다."
    else if text_eq reason (codes "invalid_client")
    then codes "알 수 없는 클라이언트 요청을 거절했습니다."
    else if text_eq reason (codes "invalid_position")
    then codes "문서 위치가 맞지 않아 전체 동기화를 요청합니다."
    else if text_eq reason []
    then codes "오류가 발생했습니다."
    else codes "오류: " ++ reason

-- `std::setw(width)` with `std::setfill(L'0')` in front of a number.
unfoldable pub fill_zeros : ℕ → Text → Text
fill_zeros width digits = replicate (width - length digits) b'0' ++ digits

-- The session code for the number that is drawn, from 0 to 999999.
unfoldable pub generate_session_code : ℕ → Text
unfolding fill_zeros
generate_session_code drawn = fill_zeros 6 (format_unsigned drawn)
