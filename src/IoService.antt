-- ===== src/IoService.antt =====
-- net/io_service.cpp: the request that each operation of IoService hands to the service.
use magio.Prelude.{ℕ, List, take}
use magio.Io.{IoContext, Operation, with_msg, blank, sockaddr_len, sizeof_sockaddr_in6}

unfoldable pub write_file : (msg len user_ptr cb : ℕ) → IoContext
write_file msg len user_ptr cb =
    let c = blank Operation.write_file user_ptr cb in record c { buf = msg; len = len }

unfoldable pub read_file : (buf len user_ptr cb : ℕ) → IoContext
read_file buf len user_ptr cb =
    let c = blank Operation.read_file user_ptr cb in record c { buf = buf; len = len }

unfoldable pub accept : (user_ptr cb : ℕ) → IoContext
accept user_ptr cb = blank Operation.accept user_ptr cb

unfoldable pub connect : (remote : List ℕ) (user_ptr cb : ℕ) → IoContext
connect remote user_ptr cb =
    let c = blank Operation.connect user_ptr cb in
    record c { addr_len = sockaddr_len remote; remote_addr = take (sockaddr_len remote) remote }

unfoldable pub send : (msg len user_ptr cb : ℕ) → IoContext
send msg len user_ptr cb =
    let c = blank Operation.send user_ptr cb in record c { buf = msg; len = len }

-- The source labels this request as a send.
unfoldable pub receive : (buf len user_ptr cb : ℕ) → IoContext
receive buf len user_ptr cb =
    let c = blank Operation.send user_ptr cb in record c { buf = buf; len = len }

unfoldable pub send_to : (remote : List ℕ) (msg len user_ptr cb : ℕ) → IoContext
send_to remote msg len user_ptr cb =
    let c = blank Operation.send_to user_ptr cb in
    record c {
      buf = msg;
      len = len;
      addr_len = sockaddr_len remote;
      remote_addr = take (sockaddr_len remote) remote;
      ptr = with_msg (sockaddr_len remote) user_ptr;
    }

unfoldable pub receive_from : (buf len user_ptr cb : ℕ) → IoContext
receive_from buf len user_ptr cb =
    let c = blank Operation.receive_from user_ptr cb in
    record c {
      buf = buf;
      len = len;
      addr_len = sizeof_sockaddr_in6;
      ptr = with_msg sizeof_sockaddr_in6 user_ptr;
    }
